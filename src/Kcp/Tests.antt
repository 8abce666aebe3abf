-- ===== src/Kcp/Tests.antt =====
-- The theorems on transport/internet/kcp at concrete inputs.
use gzv2ray_v.Kcp.Crypt.Contract.{simple_authenticator-IsAead, room-simple_authenticator}
use gzv2ray_v.Kcp.Crypt.{simple_authenticator}
use gzv2ray_v.Kcp.Sending.Acknowledge.{process_segment-acknowledges, push-keeps}
use gzv2ray_v.Kcp.Sending.Control.{on_packet_loss_bounds, congestion_window-le, flush-sends}
use gzv2ray_v.Kcp.SendingWindow.{sent_at}
use gzv2ray_v.Kcp.Sending.Reliable.{IsValid, waits, contains}
use gzv2ray_v.Kcp.Sending.{SendingWorker, on_packet_loss, congestion_window}
use gzv2ray_v.Kcp.Go.{◌>>=◌, sub_u32}
use gzv2ray_v.Kcp.Go.{put_u32, put_u16, value}
use gzv2ray_v.Kcp.AckList.Flush.{IsFlushed, flush-IsFlushed}
use gzv2ray_v.Kcp.AckList.Clear.{IsAligned, IsCleared, clear-IsCleared}
use gzv2ray_v.Kcp.Packet.RoundTrip.{length-write_packet, read_loop_total, read_packet-write_packet}
use gzv2ray_v.Kcp.Packet.Layers.{sealed_room, HasNonce, nonce_size}
use gzv2ray_v.Kcp.Packet.{
  Aead, IsAead, overhead, write_packet, serialize_all, read_loop, read_packet,
}
use gzv2ray_v.Kcp.Segment.Safety.{Safe, read_segment-Safe}
use gzv2ray_v.Kcp.Segment.RoundTrip.{Fits, on_wire, length-serialize, read_segment-serialize}
use gzv2ray_v.Kcp.Segment.{
  DataSegment, read_segment, serialize, Segment, data_segment, byte_size, AckSegment,
}
use gzv2ray_v.Kcp.Receiving.Stream.{
  ReadsOn, read_multi_buffer-ReadsOn, left_bytes, InOrder, process_segment-InOrder,
}
use gzv2ray_v.Kcp.Receiving.Drain.{stream}
use gzv2ray_v.Kcp.Receiving.Run.{
  run, Call, segment, read_all, sending_next, run-stream, flush_acks, read_bytes, fresh-InOrder,
}
use gzv2ray_v.Prelude.{
  drop, false, none, some, refl, arith, [], ◌∷◌, ℕ, List, length, All, ◌+◌, ◌++◌, ◌-◌, ◌≡◌, ◌%◌,
  ◌^◌, ◌≤◌, map, true, not, ◌||◌, ◌*◌, if◌then◌else◌, ltb, take, ◌&&◌, max, ◌==◌, ◌<◌,
}
use gzv2ray_v.Kcp.AckList
use gzv2ray_v.Kcp.Sending
use gzv2ray_v.Kcp.SendingWindow
use gzv2ray_v.Kcp.SendingWindow.Sent.{due, IsStamp}
use gzv2ray_v.Kcp.SendingWindow.Sent.Marks.{Marks, flush-Marks}
use gzv2ray_v.Kcp.AckList.{clear, AckList}
use gzv2ray_v.Kcp.Receiving.{
  ReceivingWorker, new_receiving_worker, read_multi_buffer, process_segment,
}

abbrev data_seg : ℕ → List ℕ → DataSegment
data_seg n b = record {
  conv = 7;
  option = 0;
  timestamp = 1000;
  number = n;
  sending_next = 0;
  payload = b;
  timeout = 0;
  transmit = 0;
}

-- The sender's payloads, one byte each.
abbrev sent : ℕ → List ℕ
sent n = (10 + n) ∷ []

-- The second segment comes first, and the first one comes twice.
abbrev calls : List Call
calls =
    segment (data_seg 1 (11 ∷ []))
    ∷ read_all
    ∷ segment (data_seg 0 (10 ∷ []))
    ∷ segment (data_seg 0 (10 ∷ []))
    ∷ sending_next 0
    ∷ flush_acks 100 50 7 false
    ∷ read_bytes 1
    ∷ read_all
    ∷ []

run-stream_example :
    let (w, got) = run calls (new_receiving_worker 4) in
    (k : ℕ) × (got ++ left_bytes w.left_over ≡ stream sent k) × (w.next_number ≡ k % 2 ^ 32)
run-stream_example =
    run-stream sent calls 4 (refl, (tt, (refl, (refl, (tt, (tt, (tt, (tt, tt))))))))

abbrev waiting_worker : ReceivingWorker
waiting_worker = process_segment (new_receiving_worker 4) (data_seg 0 (10 ∷ []))

waiting_worker-InOrder : InOrder sent 0 [] waiting_worker
waiting_worker-InOrder =
    process_segment-InOrder sent 0 [] (new_receiving_worker 4) (data_seg 0 (10 ∷ []))
      (fresh-InOrder sent 4) refl

read_multi_buffer-ReadsOn_example :
    ReadsOn sent 0 [] waiting_worker (read_multi_buffer waiting_worker)
read_multi_buffer-ReadsOn_example =
    read_multi_buffer-ReadsOn sent 0 [] waiting_worker waiting_worker-InOrder

abbrev data_on_wire : DataSegment
data_on_wire = record (data_seg 3 (1 ∷ 2 ∷ [])) { timeout = 5 }

data_on_wire-Fits : Fits (data_segment data_on_wire)
data_on_wire-Fits = record {
  conv = omega arith;
  option = omega arith;
  timestamp = omega arith;
  number = omega arith;
  sending_next = omega arith;
  nonempty = omega arith;
  bounded = omega arith;
}

read_segment-serialize_example :
    read_segment (serialize (data_segment data_on_wire) ++ (9 ∷ []))
    ≡ value (some (on_wire (data_segment data_on_wire), 9 ∷ []))
read_segment-serialize_example =
    read_segment-serialize (data_segment data_on_wire) (9 ∷ []) data_on_wire-Fits

length-serialize_example :
    length (serialize (data_segment data_on_wire)) ≡ byte_size (data_segment data_on_wire)
length-serialize_example = length-serialize (data_segment data_on_wire)

abbrev cut_short : List ℕ
cut_short = 7 ∷ 0 ∷ 1 ∷ 0 ∷ 3 ∷ []

read_segment-Safe_example : Safe (length cut_short - 4) (read_segment cut_short)
read_segment-Safe_example = read_segment-Safe cut_short

abbrev packet : List Segment
packet = data_segment data_on_wire ∷ data_segment (data_seg 4 (8 ∷ [])) ∷ []

packet-Fits : All Fits packet
packet-Fits = (
  data_on_wire-Fits,
  (
    record {
      conv = omega arith;
      option = omega arith;
      timestamp = omega arith;
      number = omega arith;
      sending_next = omega arith;
      nonempty = omega arith;
      bounded = omega arith;
    },
    tt,
  ),
)

no_nonce : HasNonce (some simple_authenticator) []
unfolding simple_authenticator
no_nonce = refl

packet_pos : 0 < length (serialize_all packet)
unfolding serialize_all serialize put_u32 put_u16
packet_pos = omega arith

packet_size :
    2
      + sealed_room
          (some simple_authenticator)
          simple_authenticator-IsAead
          (length (serialize_all packet))
    ≤ 2048
unfolding serialize_all serialize put_u32 put_u16 simple_authenticator
packet_size = omega (arith, room-simple_authenticator (length (serialize_all packet)))

read_packet-write_packet_example :
    (write_packet (some 2) (some simple_authenticator) (1 ∷ 2 ∷ []) [] (serialize_all packet)
      >>= read_packet (some 2) (some simple_authenticator))
    ≡ value (map on_wire packet)
read_packet-write_packet_example =
    read_packet-write_packet (some 2) (some simple_authenticator) simple_authenticator-IsAead
      (1 ∷ 2 ∷ []) [] packet refl no_nonce packet-Fits (omega arith) packet_size

-- A cipher with a nonce of 2 bytes and a tag of 1 byte.
abbrev with_nonce : Aead
with_nonce = record {
  nonce_size = 2;
  overhead = 1;
  seal = λ capacity nonce b. 7 ∷ b;
  unseal = λ nonce b. value (some (drop 1 b));
}

with_nonce-IsAead : IsAead with_nonce
with_nonce-IsAead = record {
  room = λ n. 1 + n;
  room_le = λ n. omega arith;
  unseal-seal = λ capacity nonce b l r. refl;
  length-seal = λ capacity nonce b. omega arith;
}

nonce_fits : HasNonce (some with_nonce) (8 ∷ 9 ∷ [])
nonce_fits = refl

with_nonce_size :
    2 + sealed_room (some with_nonce) with_nonce-IsAead (length (serialize_all packet)) ≤ 2048
unfolding serialize_all serialize put_u32 put_u16 with_nonce-IsAead
with_nonce_size = omega arith

length-write_packet_example :
    (datagram : List ℕ) × (write_packet
        (some 2)
        (some with_nonce)
        (1 ∷ 2 ∷ [])
        (8 ∷ 9 ∷ [])
        (serialize_all packet)
      ≡ value datagram)
    × (length datagram
        ≡ overhead (some 2) (some with_nonce)
          + nonce_size (some with_nonce)
          + length (serialize_all packet))
length-write_packet_example =
    length-write_packet (some 2) (some with_nonce) with_nonce-IsAead (1 ∷ 2 ∷ []) (8 ∷ 9 ∷ [])
      (serialize_all packet) refl nonce_fits packet_pos with_nonce_size

read_loop_total_example : (segs : List Segment) × (read_loop 5 cut_short ≡ value segs)
read_loop_total_example = read_loop_total 5 cut_short (omega arith)

abbrev ack_list : AckList
ack_list = record {
  timestamps = 100 ∷ 101 ∷ 102 ∷ [];
  numbers = 4 ∷ 2 ∷ 5 ∷ [];
  next_flush = 0 ∷ 0 ∷ 900 ∷ [];
  dirty = false;
}

ack_list-IsAligned : IsAligned ack_list
ack_list-IsAligned = record { timestamps = refl; next_flush = refl }

clear-IsCleared_example : IsCleared 3 ack_list (clear ack_list 3)
clear-IsCleared_example = clear-IsCleared ack_list 3 ack_list-IsAligned

flush-IsFlushed_example : IsFlushed 500 80 ack_list (AckList.flush ack_list 500 80)
flush-IsFlushed_example = flush-IsFlushed ack_list 500 80 ack_list-IsAligned

-- Numbers 1 and 2 are sent and not acknowledged, 3 is the next.
abbrev sender : SendingWorker
sender = record {
  window = record {
    cache = data_seg 1 (11 ∷ []) ∷ data_seg 2 (12 ∷ []) ∷ [];
    total_in_flight_size = 0;
  };
  first_unacknowledged = 1;
  next_number = 3;
  remote_next_number = 32;
  control_window = 16;
  window_size = 100;
  first_unacknowledged_updated = false;
  closed = false;
}

sender-IsValid : IsValid sender
sender-IsValid = record {
  ascending = (omega arith, (omega arith, tt));
  below = (omega arith, (omega arith, tt));
  first_le = omega arith;
  no_wrap = omega arith;
  span = omega arith;
}

-- It acknowledges 2, and the peer still waits for 1.
abbrev ack : AckSegment
ack = record {
  conv = 7;
  option = 0;
  receiving_window = 40;
  receiving_next = 1;
  timestamp = 1000;
  number_list = 2 ∷ [];
}

process_segment-acknowledges_example :
    let w' = (Sending.process_segment sender 1100 ack 80).0 in
    IsValid w'
    × ((n : ℕ) → waits n w' ≡ (if ltb n 1 || contains (2 ∷ []) n then none else waits n sender))
process_segment-acknowledges_example =
    process_segment-acknowledges sender 1100 ack 80 sender-IsValid refl (omega arith, tt)

push-keeps_example :
    let (w', accepted) = Sending.push sender (13 ∷ []) in
    (accepted ≡ not (false || ltb 100 (SendingWindow.len sender.window)))
    × IsValid w'
    × ((n : ℕ) → waits n w' ≡ (if accepted && 3 == n then some (13 ∷ []) else waits n sender))
    × (w'.next_number ≡ (if accepted then 4 else 3))
push-keeps_example = push-keeps sender (13 ∷ []) sender-IsValid (omega arith) (omega arith)

flush-sends_example :
    let (w', written, ping) = Sending.flush true 8 80 7 false sender 1100 in
    IsValid w'
    × ((n : ℕ) → waits n w' ≡ waits n sender)
    × (written
        ≡ map
            (sent_at (Sending.stamp sender 7 false) 1100 80)
            (take (max 1 (congestion_window true 8 sender)) (due 1100 sender.window.cache)))
flush-sends_example = flush-sends true 8 80 7 false sender 1100 sender-IsValid refl

stamp-sender-IsStamp : IsStamp (Sending.stamp sender 7 false)
unfolding Sending.stamp
stamp-sender-IsStamp = record {
  number = λ s. refl;
  payload = λ s. refl;
  timestamp = λ s. refl;
  timeout = λ s. refl;
  transmit = λ s. refl;
}

-- One of the two segments is due first and fills the flight.
flush-Marks_example :
    let (sw', written, rate) =
      SendingWindow.flush (Sending.stamp sender 7 false) sender.window 1100 80 1 in
    Marks 1100 80 (max 1 1) sender.window.cache sw'.cache written
flush-Marks_example =
    flush-Marks (Sending.stamp sender 7 false) sender.window 1100 80 1 stamp-sender-IsStamp
      (omega arith)

on_packet_loss_bounds_example :
    let c = (on_packet_loss true 8 80 sender 20).control_window in (16 ≤ c) × (c ≤ 2 * 8)
on_packet_loss_bounds_example =
    on_packet_loss_bounds 8 80 sender 20 (omega arith) (omega arith) (omega arith)

congestion_window-le_example :
    (congestion_window true 8 sender ≤ 20 * 8)
    × (congestion_window true 8 sender ≤ 20 * sub_u32 32 1)
congestion_window-le_example = congestion_window-le true 8 sender
