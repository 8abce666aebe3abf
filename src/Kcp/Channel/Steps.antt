-- ===== src/Kcp/Channel/Steps.antt =====
-- Every step of the channel keeps it reliable.
use gzv2ray_v.Buf.{bytes}
use gzv2ray_v.Kcp.Segment.{AckSegment}
use gzv2ray_v.Kcp.Channel.{
  Channel, Event, step, pushes, sender_flushes, segment_arrives, sending_next_arrives,
  receiver_flushes, receiver_pings, ack_arrives, una_arrives, reads_all, reads, IsPossible, run,
  ArePossible, new_channel, AckSegment, bytes,
}
use gzv2ray_v.Kcp.Channel.Reliable.{
  IsReliable, IsTrue, ReceiverStep, sender-IsReliable, receiver-IsReliable,
}
use gzv2ray_v.Kcp.Channel.Sender.{
  pushes-SenderStep, sender_flushes-SenderStep, ack_arrives-SenderStep, una_arrives-SenderStep,
}
use gzv2ray_v.Kcp.Channel.Receiver.{
  segment_arrives-ReceiverStep, reads_all-ReceiverStep, reads-ReceiverStep,
  sending_next-ReceiverStep,
}
use gzv2ray_v.Kcp.Receiving
use gzv2ray_v.Kcp.Sending
use gzv2ray_v.Kcp.AckList
use gzv2ray_v.Kcp.Receiving.Received.{IsReceived}
use gzv2ray_v.Kcp.Receiving.Run.{fresh-InOrder}
use gzv2ray_v.Kcp.Receiving.Acks.{flush-Notes}
use gzv2ray_v.Kcp.Receiving.Stream.{left_bytes}
use gzv2ray_v.Kcp.Receiving.Drain.{stream}
use gzv2ray_v.Kcp.ReceivingWindow.{has}
use gzv2ray_v.Prelude.Dict.{lookup}
use gzv2ray_v.Kcp.SendingWindow.Order.{payload}
use gzv2ray_v.Kcp.Sending.Written.{IsFrom}
use gzv2ray_v.Kcp.Sending.Reliable.{waits}
use gzv2ray_v.Prelude.{
  ℕ, List, All, All-append, All-imp, All-Member, ◌++◌, ◌∷◌, [], arith, ◌≤◌, ◌≡◌, ◌<◌, none, refl,
  Bool,
}

module _ (sent : ℕ → List ℕ) (s : Channel) (v : IsReliable sent s) where
  receiver_flushes-ReceiverStep :
      (current rto conv : ℕ) (closing : Bool)
      → ReceiverStep sent s (Receiving.flush s.receiver current rto conv closing).0 s.got
  unfolding Receiving.flush
  receiver_flushes-ReceiverStep current rto conv closing = record {
    receives = record {
      in_order = record {
        next = v.receives.in_order.next;
        from = v.receives.in_order.from;
        delivered = v.receives.in_order.delivered;
      };
      within = record { read_le = v.receives.within.read_le; held = v.receives.within.held };
      notes =
          (flush-Notes (IsReceived s.receiver) s.receiver current rto conv closing
            v.receives.notes).0;
    };
    holds = record {
      forward = omega arith;
      bounded = v.receives.within.read_le;
      stays = λ m h. h;
      below = v.receives.within.held;
    };
  }

  wires-IsReliable :
      (acks : List AckSegment) (unas : List ℕ)
      → All (IsTrue s.receiver) acks
      → All (λ n. n ≤ s.receiver.next_number) unas
      → IsReliable sent (record s { acks = acks; unas = unas })
  wires-IsReliable acks unas h k = record {
    sends = v.sends;
    receives = v.receives;
    acks = h;
    unas = k;
    kept = v.kept;
  }

  -- The acknowledgements that a flush writes are true.
  acks_written :
      (current rto conv : ℕ) (closing : Bool)
      → let (w, written) = Receiving.flush s.receiver current rto conv closing in
        All (IsTrue w) (s.acks ++ written)
  unfolding Receiving.flush
  acks_written current rto conv closing =
      let n =
        flush-Notes (IsReceived s.receiver) s.receiver current rto conv closing v.receives.notes in
      All-append (IsTrue s.receiver) s.acks (Receiving.flush s.receiver current rto conv closing).1
        v.acks
        (All-imp
          (λ a.
            All (IsReceived s.receiver) a.number_list × (a.receiving_next ≡ s.receiver.next_number))
          (IsTrue s.receiver) (λ a h. (h.0, omega (arith, h.1)))
          (Receiving.flush s.receiver current rto conv closing).1 n.1)

-- A step that is possible keeps the channel reliable.
pub step-IsReliable :
    (sent : ℕ → List ℕ) (s : Channel) (e : Event)
    → IsPossible e s
    → IsReliable sent s
    → IsReliable sent (step sent e s)
unfolding step
step-IsReliable sent s pushes (h1, h2) v =
    sender-IsReliable sent s v (Sending.push s.sender (sent s.sender.next_number)).0 s.segments
      (pushes-SenderStep sent s v h1 h2)
step-IsReliable sent s (sender_flushes congestion size rto conv closing current) p v =
    let f = Sending.flush congestion size rto conv closing s.sender current in
    sender-IsReliable sent s v f.0 (s.segments ++ f.1)
      (sender_flushes-SenderStep sent s v congestion size rto conv closing current)
step-IsReliable sent s (segment_arrives seg) p v =
    receiver-IsReliable sent s v (Receiving.process_segment s.receiver seg) s.got (
      segment_arrives-ReceiverStep sent s v seg
        (All-Member (IsFrom sent s.sender.next_number) seg s.segments v.sends.written p))
step-IsReliable sent s (sending_next_arrives n) p v =
    receiver-IsReliable sent s v (Receiving.process_sending_next s.receiver n) s.got
      (sending_next-ReceiverStep sent s v n)
step-IsReliable sent s (receiver_flushes current rto conv closing) p v =
    let w = (Receiving.flush s.receiver current rto conv closing).0 in
    let r =
      receiver-IsReliable sent s v w s.got
        (receiver_flushes-ReceiverStep sent s v current rto conv closing) in
    wires-IsReliable sent (record s { receiver = w }) r
      (s.acks ++ (Receiving.flush s.receiver current rto conv closing).1) s.unas
      (acks_written sent s v current rto conv closing) r.unas
step-IsReliable sent s receiver_pings p v =
    wires-IsReliable sent s v s.acks (s.unas ++ (s.receiver.next_number ∷ [])) v.acks (
      All-append (λ n. n ≤ s.receiver.next_number) s.unas (s.receiver.next_number ∷ []) v.unas
        (omega arith, tt))
step-IsReliable sent s (ack_arrives a current rto) p v =
    sender-IsReliable sent s v (Sending.process_segment s.sender current a rto).0 s.segments (
      ack_arrives-SenderStep sent s v a current rto
        (All-Member (IsTrue s.receiver) a s.acks v.acks p))
step-IsReliable sent s (una_arrives n) p v =
    sender-IsReliable sent s v (Sending.process_receiving_next s.sender n) s.segments (
      una_arrives-SenderStep sent s v n
        (All-Member (λ m. m ≤ s.receiver.next_number) n s.unas v.unas p))
step-IsReliable sent s reads_all p v =
    let r = Receiving.read_multi_buffer s.receiver in
    receiver-IsReliable sent s v r.0 (s.got ++ bytes r.1) (reads_all-ReceiverStep sent s v)
step-IsReliable sent s (reads n) p v =
    let r = Receiving.read s.receiver n in
    receiver-IsReliable sent s v r.0 (s.got ++ r.1) (reads-ReceiverStep sent s v n)

pub new_channel-IsReliable :
    (sent : ℕ → List ℕ) (in_flight_size buffer_size receiving_size : ℕ)
    → IsReliable sent (new_channel in_flight_size buffer_size receiving_size)
unfolding new_channel Sending.new_sending_worker Receiving.new_receiving_worker AckList.new_ack_list
    payload has lookup
new_channel-IsReliable sent in_flight_size buffer_size receiving_size = record {
  sends = record {
    valid = record {
      ascending = tt;
      below = tt;
      first_le = omega arith;
      no_wrap = omega arith;
      span = omega arith;
    };
    is_open = refl;
    pushed = λ n b e. cc e;
    written = tt;
  };
  receives = record {
    in_order = fresh-InOrder sent receiving_size;
    within = record { read_le = omega arith; held = λ n h. cc h };
    notes = record { aligned = record { timestamps = refl; next_flush = refl }; numbers = tt };
  };
  acks = tt;
  unas = tt;
  kept = λ n l e. absurd (omega (arith, l));
}

pub run-IsReliable :
    (sent : ℕ → List ℕ) (events : List Event) (s : Channel)
    → ArePossible sent events s
    → IsReliable sent s
    → IsReliable sent (run sent events s)
unfolding run
run-IsReliable sent [] s p v = v
run-IsReliable sent (e ∷ events) s p v =
    run-IsReliable sent events (step sent e s) p.1 (step-IsReliable sent s e p.0 v)

-- Any run of a new channel whose sender's numbers do not wrap, however the network loses, repeats
-- and reorders what is written: what the reader was returned, followed by what is kept over, is
-- the first payloads that were pushed, as many as the receiver's next number; and of those that
-- were pushed, each waits in the sending window or is below that number or in the receiver's window.
pub run-reliable :
    (sent : ℕ → List ℕ) (events : List Event) (in_flight_size buffer_size receiving_size : ℕ)
    → ArePossible sent events (new_channel in_flight_size buffer_size receiving_size)
    → let s = run sent events (new_channel in_flight_size buffer_size receiving_size) in
      (s.got ++ left_bytes s.receiver.left_over ≡ stream sent s.receiver.next_number)
      × (s.receiver.next_number ≤ s.sender.next_number)
      × ((n : ℕ) → n < s.sender.next_number → waits n s.sender ≡ none → IsReceived s.receiver n)
run-reliable sent events in_flight_size buffer_size receiving_size p =
    let v =
      run-IsReliable sent events (new_channel in_flight_size buffer_size receiving_size) p
        (new_channel-IsReliable sent in_flight_size buffer_size receiving_size) in
    (v.receives.in_order.delivered, v.receives.within.read_le, v.kept)
