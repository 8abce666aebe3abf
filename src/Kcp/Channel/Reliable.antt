-- ===== src/Kcp/Channel/Reliable.antt =====
-- Nothing is lost and nothing is invented between the two ends.
use gzv2ray_v.Kcp.Segment.{AckSegment, DataSegment}
use gzv2ray_v.Kcp.Sending.{SendingWorker}
use gzv2ray_v.Kcp.Receiving.{ReceivingWorker}
use gzv2ray_v.Prelude.{ℕ, false, none, some, arith, List, All, All-imp, ◌≤◌, ◌≡◌, ◌<◌}
use gzv2ray_v.Kcp.Channel.{Channel, ReceivingWorker, SendingWorker, AckSegment, DataSegment}
use gzv2ray_v.Kcp.Sending.Reliable.{IsValid, waits}
use gzv2ray_v.Kcp.Sending.Written.{IsFrom}
use gzv2ray_v.Kcp.Receiving.Received.{IsReceived, IsWithin, Holds}
use gzv2ray_v.Kcp.Receiving.Acks.{Notes}
use gzv2ray_v.Kcp.Receiving.Stream.{InOrder}

-- The sender's half: it holds what the application pushed, and so does all that it wrote.
pub record Sends (sent : ℕ → List ℕ) (w : SendingWorker) (segments : List DataSegment)
    : Type 0 where
  pub valid : IsValid w
  pub is_open : w.closed ≡ false
  pub pushed : (n : ℕ) (b : List ℕ) → waits n w ≡ some b → b ≡ sent n
  pub written : All (IsFrom sent w.next_number) segments

-- The receiver's half, in a stream of `hi` payloads.
pub record Receives (sent : ℕ → List ℕ) (hi : ℕ) (got : List ℕ) (w : ReceivingWorker) : Type 0 where
  pub in_order : InOrder sent w.next_number got w
  pub within : IsWithin hi w
  pub notes : Notes (IsReceived w) w.acklist

-- What an acknowledgement claims of the receiver.
abbrev pub IsTrue : ReceivingWorker → AckSegment → Type 0
IsTrue w a = All (IsReceived w) a.number_list × (a.receiving_next ≤ w.next_number)

-- Both halves, what the wires say of the receiver, and that no payload is lost.
pub record IsReliable (sent : ℕ → List ℕ) (s : Channel) : Type 0 where
  pub sends : Sends sent s.sender s.segments
  pub receives : Receives sent s.sender.next_number s.got s.receiver
  pub acks : All (IsTrue s.receiver) s.acks
  pub unas : All (λ n. n ≤ s.receiver.next_number) s.unas
  pub kept : (n : ℕ) → n < s.sender.next_number → waits n s.sender ≡ none → IsReceived s.receiver n

-- A step of the sender's half that takes out only what has arrived.
pub record SenderStep (sent : ℕ → List ℕ) (s : Channel) (w : SendingWorker)
    (segments : List DataSegment) : Type 0 where
  pub sends : Sends sent w segments
  pub grows : s.sender.next_number ≤ w.next_number
  pub kept : (n : ℕ) → n < w.next_number → waits n w ≡ none → IsReceived s.receiver n

-- A step of the receiver's half.
pub record ReceiverStep (sent : ℕ → List ℕ) (s : Channel) (w : ReceivingWorker) (got : List ℕ)
    : Type 0 where
  pub receives : Receives sent s.sender.next_number got w
  pub holds : Holds s.sender.next_number s.receiver w

module _ (sent : ℕ → List ℕ) (s : Channel) (v : IsReliable sent s) where
  pub sender-IsReliable :
      (w : SendingWorker) (segments : List DataSegment)
      → SenderStep sent s w segments
      → IsReliable sent (record s { sender = w; segments = segments })
  sender-IsReliable w segments t = record {
    sends = t.sends;
    receives = record {
      in_order = v.receives.in_order;
      within = record {
        read_le = omega (arith, v.receives.within.read_le, t.grows);
        held = λ n h. omega (arith, v.receives.within.held n h, t.grows);
      };
      notes = v.receives.notes;
    };
    acks = v.acks;
    unas = v.unas;
    kept = t.kept;
  }

  pub receiver-IsReliable :
      (w : ReceivingWorker) (got : List ℕ)
      → ReceiverStep sent s w got
      → IsReliable sent (record s { receiver = w; got = got })
  receiver-IsReliable w got t = record {
    sends = v.sends;
    receives = t.receives;
    acks =
        All-imp (IsTrue s.receiver) (IsTrue w)
          (λ a h. (
            All-imp (IsReceived s.receiver) (IsReceived w) t.holds.stays a.number_list h.0,
            omega (arith, h.1, t.holds.forward),
          ))
          s.acks v.acks;
    unas =
        All-imp (λ n. n ≤ s.receiver.next_number) (λ n. n ≤ w.next_number)
          (λ n h. omega (arith, h, t.holds.forward)) s.unas v.unas;
    kept = λ n l e. t.holds.stays n (v.kept n l e);
  }
