-- ===== src/Kcp/Channel/Receiver.antt =====
-- The steps of the receiver's half.
use gzv2ray_v.Kcp.Go.{sub_u32}
use gzv2ray_v.Buf.{bytes}
use mathlib.Core.Path.{subst}
use gzv2ray_v.Kcp.Segment.{DataSegment}
use gzv2ray_v.Kcp.Receiving.{ReceivingWorker}
use gzv2ray_v.Prelude.{
  ℕ, true, inl, inr, arith, Bool-cases, List, ◌<◌, ◌≡◌, ◌++◌, leb, ltb, ◌^◌, All-imp, sym,
}
use gzv2ray_v.Kcp.Channel.{Channel, ReceivingWorker, DataSegment, bytes}
use gzv2ray_v.Kcp.Receiving
use gzv2ray_v.Kcp.Channel.Reliable.{IsReliable, ReceiverStep}
use gzv2ray_v.Kcp.Receiving.Received.{
  IsReceived, IsWithin, Holds, process_segment-Keeps, read-Keeps, read_multi_buffer-Keeps,
  read-acklist, read_multi_buffer-acklist, has-set,
}
use gzv2ray_v.Kcp.Receiving.Acks.{process_segment-Notes, process_sending_next-Notes}
use gzv2ray_v.Kcp.Receiving.Stream.{InOrder, process_segment-InOrder}
use gzv2ray_v.Kcp.Receiving.Unwrapped.{read_multi_buffer-InOrder, read-InOrder_exact}
use gzv2ray_v.Kcp.Sending.Written.{IsFrom}

-- A number that has arrived is below those that the sender gave.
pub received_below :
    (hi : ℕ) (w : ReceivingWorker) → IsWithin hi w → (n : ℕ) → IsReceived w n → n < hi
received_below hi w v n h = ground (arith, v.held n)

process_segment-next :
    (w : ReceivingWorker) (seg : DataSegment)
    → (Receiving.process_segment w seg).next_number ≡ w.next_number
unfolding Receiving.process_segment
process_segment-next w seg =
    elim (Bool-cases (leb w.window_size (sub_u32 seg.number w.next_number))) [
      | inl e ↦ rw e
      | inr e ↦ rw e
    ]

-- A segment that the window takes has arrived.
process_segment-arrives :
    (w : ReceivingWorker) (seg : DataSegment)
    → ltb (sub_u32 seg.number w.next_number) w.window_size ≡ true
    → IsReceived (Receiving.process_segment w seg) seg.number
unfolding Receiving.process_segment
process_segment-arrives w seg h =
    elim (Bool-cases (leb w.window_size (sub_u32 seg.number w.next_number))) [
      | inl e ↦ absurd (ground arith)
      | inr e ↦ rw e (ground (arith, has-set w.window seg.number seg.number seg))
    ]

IsWithin-Keeps : (hi : ℕ) (w w' : ReceivingWorker) → Holds hi w w' → IsWithin hi w'
IsWithin-Keeps hi w w' k = record { read_le = k.bounded; held = k.below }

module _ (sent : ℕ → List ℕ) (s : Channel) (v : IsReliable sent s) where
  limit : s.sender.next_number < 2 ^ 32
  limit = v.sends.valid.no_wrap

  -- A step that adds no number to acknowledge.
  silent :
      (w : ReceivingWorker) (got : List ℕ)
      → InOrder sent w.next_number got w
      → Holds s.sender.next_number s.receiver w
      → w.acklist ≡ s.receiver.acklist
      → ReceiverStep sent s w got
  silent w got i k same = record {
    receives = record {
      in_order = i;
      within = IsWithin-Keeps s.sender.next_number s.receiver w k;
      notes = rw same (record {
        aligned = v.receives.notes.aligned;
        numbers =
            All-imp (IsReceived s.receiver) (IsReceived w) k.stays s.receiver.acklist.numbers
              v.receives.notes.numbers;
      });
    };
    holds = k;
  }

  pub segment_arrives-ReceiverStep :
      (seg : DataSegment)
      → IsFrom sent s.sender.next_number seg
      → ReceiverStep sent s (Receiving.process_segment s.receiver seg) s.got
  segment_arrives-ReceiverStep seg f =
      let w' = Receiving.process_segment s.receiver seg in
      let k =
        process_segment-Keeps s.sender.next_number s.receiver limit v.receives.within seg f.1 in
      record {
        receives = record {
          in_order =
              subst (λ n. InOrder sent n s.got w') (sym (process_segment-next s.receiver seg))
                (process_segment-InOrder sent s.receiver.next_number s.got s.receiver seg
                  v.receives.in_order f.0);
          within = IsWithin-Keeps s.sender.next_number s.receiver w' k;
          notes =
              process_segment-Notes (IsReceived w') s.receiver seg
                (process_segment-arrives s.receiver seg)
                (record {
                  aligned = v.receives.notes.aligned;
                  numbers =
                      All-imp (IsReceived s.receiver) (IsReceived w') k.stays
                        s.receiver.acklist.numbers v.receives.notes.numbers;
                });
        };
        holds = k;
      }

  pub reads_all-ReceiverStep :
      let (w, mb) = Receiving.read_multi_buffer s.receiver in
      ReceiverStep sent s w (s.got ++ bytes mb)
  reads_all-ReceiverStep =
      silent (Receiving.read_multi_buffer s.receiver).0
        (s.got ++ bytes (Receiving.read_multi_buffer s.receiver).1)
        (read_multi_buffer-InOrder sent s.sender.next_number s.got s.receiver limit
          v.receives.within v.receives.in_order)
        (read_multi_buffer-Keeps s.sender.next_number s.receiver limit v.receives.within)
        (read_multi_buffer-acklist s.receiver)

  pub reads-ReceiverStep :
      (n : ℕ) → let (w, b) = Receiving.read s.receiver n in ReceiverStep sent s w (s.got ++ b)
  reads-ReceiverStep n =
      silent (Receiving.read s.receiver n).0 (s.got ++ (Receiving.read s.receiver n).1)
        (read-InOrder_exact sent s.sender.next_number s.got s.receiver limit v.receives.within
          v.receives.in_order n)
        (read-Keeps s.sender.next_number s.receiver limit v.receives.within n)
        (read-acklist s.receiver n)

  pub sending_next-ReceiverStep :
      (n : ℕ) → ReceiverStep sent s (Receiving.process_sending_next s.receiver n) s.got
  unfolding Receiving.process_sending_next
  sending_next-ReceiverStep n = record {
    receives = record {
      in_order = record {
        next = v.receives.in_order.next;
        from = v.receives.in_order.from;
        delivered = v.receives.in_order.delivered;
      };
      within = record { read_le = v.receives.within.read_le; held = v.receives.within.held };
      notes = process_sending_next-Notes (IsReceived s.receiver) s.receiver n v.receives.notes;
    };
    holds = record {
      forward = omega arith;
      bounded = v.receives.within.read_le;
      stays = λ m h. h;
      below = v.receives.within.held;
    };
  }
