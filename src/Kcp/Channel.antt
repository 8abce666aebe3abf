-- ===== src/Kcp/Channel.antt =====
-- transport/internet/kcp/connection.go: one direction of a connection, end to end. The application
-- pushes payloads into a sending worker, a reader reads the receiving worker of the other side, and
-- `Input` and `flush` of the two connections hand segments on. The wires keep all that was ever
-- written: the network delivers any of it, at any time, in any order, as often as it likes, or never.
pub mod Reliable
pub mod Sender
pub mod Receiver
pub mod Steps
pub mod Pipe
pub mod Refines
pub mod Complete
mod Tests
use gzv2ray_v.Buf.{bytes}
use gzv2ray_v.Kcp.Segment.{DataSegment, AckSegment}
use gzv2ray_v.Kcp.Receiving.{ReceivingWorker}
use gzv2ray_v.Kcp.Sending.{SendingWorker}
use gzv2ray_v.Prelude.{ℕ, suc, [], ◌∷◌, Bool, List, ◌<◌, ◌++◌, ◌^◌, ◌+◌, Member}
use gzv2ray_v.Kcp.Receiving
use gzv2ray_v.Kcp.Sending

-- `unas` are the values of ReceivingNext that the receiver's pings carried, and `got` is what the
-- reader was returned so far.
pub record Channel : Type 0 where
  pub sender : SendingWorker
  pub receiver : ReceivingWorker
  pub segments : List DataSegment
  pub acks : List AckSegment
  pub unas : List ℕ
  pub got : List ℕ

unfoldable pub new_channel : ℕ → ℕ → ℕ → Channel
unfolding Sending.new_sending_worker Receiving.new_receiving_worker
new_channel in_flight_size buffer_size receiving_size = record {
  sender = Sending.new_sending_worker in_flight_size buffer_size;
  receiver = Receiving.new_receiving_worker receiving_size;
  segments = [];
  acks = [];
  unas = [];
  got = [];
}

-- What happens: the application pushes the next payload, the sender or the receiver is flushed, the
-- receiver's side pings, something arrives, or the reader reads.
pub data Event : Type 0 where
  pushes : Event
  sender_flushes : Bool → ℕ → ℕ → ℕ → Bool → ℕ → Event
  segment_arrives : DataSegment → Event
  sending_next_arrives : ℕ → Event
  receiver_flushes : ℕ → ℕ → ℕ → Bool → Event
  receiver_pings : Event
  ack_arrives : AckSegment → ℕ → ℕ → Event
  una_arrives : ℕ → Event
  reads_all : Event
  reads : ℕ → Event

-- `sent` is the payload that the application pushes as the n-th.
unfoldable pub step : (ℕ → List ℕ) → Event → Channel → Channel
step sent pushes s = record s { sender = (Sending.push s.sender (sent s.sender.next_number)).0 }
step sent (sender_flushes congestion size rto conv closing current) s =
    let (w, written, ping) = Sending.flush congestion size rto conv closing s.sender current in
    record s { sender = w; segments = s.segments ++ written }
step sent (segment_arrives seg) s = record s { receiver = Receiving.process_segment s.receiver seg }
step sent (sending_next_arrives n) s = record s {
  receiver = Receiving.process_sending_next s.receiver n;
}
step sent (receiver_flushes current rto conv closing) s =
    let (w, written) = Receiving.flush s.receiver current rto conv closing in
    record s { receiver = w; acks = s.acks ++ written }
step sent receiver_pings s = record s { unas = s.unas ++ (s.receiver.next_number ∷ []) }
step sent (ack_arrives a current rto) s = record s {
  sender = (Sending.process_segment s.sender current a rto).0;
}
step sent (una_arrives n) s = record s { sender = Sending.process_receiving_next s.sender n }
step sent reads_all s =
    let (w, mb) = Receiving.read_multi_buffer s.receiver in
    record s { receiver = w; got = s.got ++ bytes mb }
step sent (reads n) s =
    let (w, b) = Receiving.read s.receiver n in record s { receiver = w; got = s.got ++ b }

-- What arrives was written. The numbers have not wrapped round and span less than half their range
-- when a payload is pushed.
abbrev pub IsPossible : Event → Channel → Type 0
IsPossible pushes s =
    (suc s.sender.next_number < 2 ^ 32)
    × (s.sender.next_number < s.sender.first_unacknowledged + 0x7FFFFFFF)
IsPossible (segment_arrives seg) s = Member seg s.segments
IsPossible (ack_arrives a current rto) s = Member a s.acks
IsPossible (una_arrives n) s = Member n s.unas
IsPossible _ s = Unit

unfoldable pub run : (ℕ → List ℕ) → List Event → Channel → Channel
unfolding step
run sent [] s = s
run sent (e ∷ events) s = run sent events (step sent e s)

abbrev pub ArePossible : (ℕ → List ℕ) → List Event → Channel → Type 0
ArePossible sent [] s = Unit
ArePossible sent (e ∷ events) s = IsPossible e s × ArePossible sent events (step sent e s)
