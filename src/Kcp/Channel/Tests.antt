-- ===== src/Kcp/Channel/Tests.antt =====
-- The theorems on the channel at a concrete run.
use gzv2ray_v.Kcp.Receiving.Received.{IsReceived}
use gzv2ray_v.Kcp.Receiving.Drain.{stream}
use gzv2ray_v.Kcp.Sending.Reliable.{waits}
use gzv2ray_v.Kcp.Receiving.Stream.{left_bytes}
use gzv2ray_v.Kcp.Channel.{
  Event, step, reads_all, run, ArePossible, new_channel, pushes, sender_flushes, segment_arrives,
  receiver_flushes, ack_arrives, una_arrives, receiver_pings, reads,
}
use gzv2ray_v.Kcp.Channel.Steps.{run-reliable}
use gzv2ray_v.Kcp.Channel.Refines.{run-refines, actions, as_pipe}
use gzv2ray_v.Kcp.Channel.Pipe.{Acts, writes, takes, rests}
use gzv2ray_v.Kcp.Channel.Complete.{run_complete}
use gzv2ray_v.Prelude.{
  ℕ, List, ◌∷◌, [], ◌+◌, false, true, refl, none, inl, inr, arith, ◌++◌, ◌≡◌, ◌≤◌, ◌<◌,
}
use gzv2ray_v.Kcp.Segment.{DataSegment, AckSegment}
use gzv2ray_v.Kcp.Sending
use gzv2ray_v.Kcp.Receiving
use gzv2ray_v.Kcp.AckList
use gzv2ray_v.Kcp.SendingWindow
use gzv2ray_v.Kcp.ReceivingWindow

abbrev sent : ℕ → List ℕ
sent n = (10 + n) ∷ (20 + n) ∷ []

abbrev seg : ℕ → DataSegment
seg n = record {
  conv = 7;
  option = 0;
  timestamp = 5;
  number = n;
  sending_next = 0;
  payload = (10 + n) ∷ (20 + n) ∷ [];
  timeout = 105;
  transmit = 1;
}

abbrev ack : AckSegment
ack = record {
  conv = 7;
  option = 0;
  receiving_window = 8;
  receiving_next = 0;
  timestamp = 5;
  number_list = 1 ∷ 0 ∷ 1 ∷ [];
}

-- The second segment comes first and twice, and the first read takes one byte.
abbrev events : List Event
events =
    pushes
    ∷ pushes
    ∷ sender_flushes false 4 100 7 false 5
    ∷ receiver_pings
    ∷ segment_arrives (seg 1)
    ∷ segment_arrives (seg 0)
    ∷ segment_arrives (seg 1)
    ∷ receiver_flushes 9 100 7 false
    ∷ una_arrives 0
    ∷ reads 1
    ∷ ack_arrives ack 12 100
    ∷ []

possible : ArePossible sent events (new_channel 8 8 8)
unfolding new_channel step Sending.new_sending_worker Receiving.new_receiving_worker Sending.push
    SendingWindow.len Sending.flush SendingWindow.push SendingWindow.is_empty SendingWindow.flush
    Receiving.flush AckList.flush Receiving.process_segment AckList.add AckList.clear
    AckList.clear_loop AckList.flush_start AckList.new_segment Receiving.stamp
possible = (
  (omega arith, omega arith),
  (
    (omega arith, omega arith),
    (
      tt,
      (tt, (inr (inl refl), (inl refl, (inr (inl refl), (tt, (inl refl, (tt, (inl refl, tt)))))))),
    ),
  ),
)

run-reliable_example :
    let s = run sent events (new_channel 8 8 8) in
    (s.got ++ left_bytes s.receiver.left_over ≡ stream sent s.receiver.next_number)
    × (s.receiver.next_number ≤ s.sender.next_number)
    × ((n : ℕ) → n < s.sender.next_number → waits n s.sender ≡ none → IsReceived s.receiver n)
run-reliable_example = run-reliable sent events 8 8 8 possible

run-refines_example :
    Acts
      (actions sent events (new_channel 8 8 8))
      (record { written = []; taken = [] })
      (as_pipe sent (run sent events (new_channel 8 8 8)))
run-refines_example = run-refines sent events 8 8 8 possible

-- What the run looks like.
events-actions :
    actions sent events (new_channel 8 8 8)
    ≡ writes (10 ∷ 20 ∷ [])
      ∷ writes (11 ∷ 21 ∷ [])
      ∷ rests
      ∷ rests
      ∷ rests
      ∷ rests
      ∷ rests
      ∷ rests
      ∷ rests
      ∷ takes (10 ∷ [])
      ∷ rests
      ∷ []
unfolding actions Sending.push Receiving.read new_channel step gzv2ray_v.Buf.is_empty
    SendingWindow.len Receiving.read_multi_buffer SendingWindow.push Receiving.flush
    Receiving.process_segment ReceivingWindow.remove gzv2ray_v.Prelude.Dict.lookup
    ReceivingWindow.set gzv2ray_v.Prelude.Dict.insert gzv2ray_v.Prelude.Dict.delete
    gzv2ray_v.Buf.split_bytes
events-actions = refl

abbrev acknowledged : List Event
acknowledged =
    pushes
    ∷ sender_flushes false 4 100 7 false 5
    ∷ segment_arrives (seg 0)
    ∷ receiver_flushes 9 100 7 false
    ∷ ack_arrives (record ack { number_list = 0 ∷ [] }) 12 100
    ∷ []

acknowledged_possible : ArePossible sent acknowledged (new_channel 8 8 8)
unfolding new_channel step Sending.new_sending_worker Receiving.new_receiving_worker Sending.push
    SendingWindow.len Sending.flush SendingWindow.push SendingWindow.is_empty SendingWindow.flush
    Receiving.flush AckList.flush Receiving.process_segment AckList.add AckList.clear
    AckList.clear_loop AckList.flush_start AckList.new_segment Receiving.stamp
acknowledged_possible = ((omega arith, omega arith), (tt, (inl refl, (tt, (inl refl, tt)))))

nothing_waits : (n : ℕ) → waits n (run sent acknowledged (new_channel 8 8 8)).sender ≡ none
unfolding gzv2ray_v.Kcp.SendingWindow.Order.payload run Sending.process_segment Sending.flush
    Sending.push new_channel SendingWindow.len SendingWindow.is_empty SendingWindow.push
    SendingWindow.flush Sending.after_acks Sending.process_acks Sending.process_receiving_next
    SendingWindow.clear Sending.raise_remote SendingWindow.remove
nothing_waits n = refl

nothing_left : (run sent acknowledged (new_channel 8 8 8)).receiver.left_over ≡ none
unfolding run Receiving.flush Receiving.process_segment new_channel
nothing_left = refl

run_complete_example :
    (step sent reads_all (run sent acknowledged (new_channel 8 8 8))).got
    ≡ stream sent (run sent acknowledged (new_channel 8 8 8)).sender.next_number
run_complete_example =
    run_complete sent acknowledged 8 8 8 acknowledged_possible nothing_waits nothing_left
