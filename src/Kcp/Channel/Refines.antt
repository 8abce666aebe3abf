-- ===== src/Kcp/Channel/Refines.antt =====
-- The channel implements the pipe.
use gzv2ray_v.Kcp.Segment.{DataSegment}
use gzv2ray_v.Kcp.Sending.{SendingWorker}
use gzv2ray_v.Kcp.Receiving.{ReceivingWorker}
use native.Mathlib.Decide.{dec_le}
use gzv2ray_v.Kcp.Channel.{
  Channel, Event, step, pushes, sender_flushes, segment_arrives, sending_next_arrives,
  receiver_flushes, receiver_pings, ack_arrives, una_arrives, reads_all, reads, IsPossible, run,
  ArePossible, new_channel, ReceivingWorker, SendingWorker, DataSegment,
}
use gzv2ray_v.Kcp.Channel.Pipe.{
  Pipe, Action, Does, Acts, writes, takes, rests, writing, taking, resting, stop, more,
}
use gzv2ray_v.Kcp.Channel.Reliable.{IsReliable, ReceiverStep}
use gzv2ray_v.Kcp.Channel.Steps.{step-IsReliable, new_channel-IsReliable}
use gzv2ray_v.Kcp.Channel.Receiver.{reads_all-ReceiverStep, reads-ReceiverStep}
use gzv2ray_v.Kcp.Receiving
use gzv2ray_v.Kcp.Sending
use gzv2ray_v.Kcp.Receiving.Drain.{stream}
use gzv2ray_v.Kcp.Receiving.Stream.{left_bytes}
use gzv2ray_v.Kcp.Sending.Acknowledge.{push-keeps}
use gzv2ray_v.Kcp.Sending.Written.{flush-Same, process_segment-Same, process_receiving_next-Same}
use gzv2ray_v.Buf.{bytes}
use gzv2ray_v.Prelude.{
  ℕ, List, ◌++◌, ◌∷◌, [], arith, ◌≤◌, ◌≡◌, ◌<◌, refl, ap, sym, append_assoc, append-nil, ◌∙◌,
  if◌then◌else◌, inl, inr, Bool-cases, suc, zero, ◌^◌, ◌%◌, ◌+◌,
}

-- What the application has pushed, and what the reader was returned.
unfoldable pub as_pipe : (ℕ → List ℕ) → Channel → Pipe
as_pipe sent s = record { written = stream sent s.sender.next_number; taken = s.got }

-- What the application and the reader see of a step: a payload that `Push` takes, and the bytes
-- that a read returns.
unfoldable pub action : (ℕ → List ℕ) → Event → Channel → Action
action sent pushes s =
    if (Sending.push s.sender (sent s.sender.next_number)).1
    then writes (sent s.sender.next_number)
    else rests
action sent reads_all s = takes (bytes (Receiving.read_multi_buffer s.receiver).1)
action sent (reads n) s = takes (Receiving.read s.receiver n).1
action sent e s = rests

unfoldable pub actions : (ℕ → List ℕ) → List Event → Channel → List Action
unfolding action
actions sent [] s = []
actions sent (e ∷ events) s = action sent e s ∷ actions sent events (step sent e s)

stream_prefix :
    (sent : ℕ → List ℕ) (k n : ℕ)
    → k ≤ n
    → (rest : List ℕ) × (stream sent k ++ rest ≡ stream sent n)
unfolding stream
stream_prefix sent k zero le =
    ([], append-nil (stream sent k) ∙ ap (stream sent) {x = k} {y = 0} (omega arith))
stream_prefix sent k (suc n) le = elim (dec_le k n) [
  | yes l ↦
      let (rest, e) = stream_prefix sent k n l in
      (
        rest ++ sent (n % 2 ^ 32),
        sym (append_assoc (stream sent k) rest (sent (n % 2 ^ 32)))
            ∙ ap (λ t. t ++ sent (n % 2 ^ 32)) e,
      )
  | no g ↦ ([], append-nil (stream sent k) ∙ ap (stream sent) {x = k} {y = suc n} (omega arith))
]

stream_next :
    (sent : ℕ → List ℕ) (n m : ℕ) → n < 2 ^ 32 → m ≡ suc n → stream sent m ≡ stream sent n ++ sent n
unfolding stream
stream_next sent n m l e =
    ap (stream sent) e
    ∙ ap (λ k. stream sent n ++ sent k) {x = n % 2 ^ 32} {y = n} (omega (arith, l))

abbrev holding : List ℕ → List ℕ → Pipe
holding got t = record { written = t; taken = got }

module _ (sent : ℕ → List ℕ) (s : Channel) (v : IsReliable sent s) where
  -- A read of the worker takes bytes out of the pipe.
  read-takes :
      (w : ReceivingWorker) (b : List ℕ)
      → ReceiverStep sent s w (s.got ++ b)
      → Does (takes b) (as_pipe sent s) (as_pipe sent (record s { receiver = w; got = s.got ++ b }))
  unfolding as_pipe
  read-takes w b t =
      let (rest, e) =
        stream_prefix sent w.next_number s.sender.next_number t.receives.within.read_le in
      taking (left_bytes w.left_over ++ rest)
        (sym (append_assoc (s.got ++ b) (left_bytes w.left_over) rest)
          ∙ ap (λ t. t ++ rest) t.receives.in_order.delivered
          ∙ e)
        refl

  -- What the sender does without giving a number is not seen.
  sender-rests :
      (w : SendingWorker) (segments : List DataSegment)
      → w.next_number ≡ s.sender.next_number
      → Does rests (as_pipe sent s) (as_pipe sent (record s { sender = w; segments = segments }))
  unfolding as_pipe
  sender-rests w segments e = resting (rw e)

  push-writes :
      suc s.sender.next_number < 2 ^ 32
      → s.sender.next_number < s.sender.first_unacknowledged + 0x7FFFFFFF
      → Does (action sent pushes s) (as_pipe sent s) (as_pipe sent (step sent pushes s))
  unfolding action step as_pipe stream
  push-writes h1 h2 =
      let p = push-keeps s.sender (sent s.sender.next_number) v.sends.valid h1 h2 in
      let w = (Sending.push s.sender (sent s.sender.next_number)).0 in
      elim (Bool-cases (Sending.push s.sender (sent s.sender.next_number)).1) [
        | inl yes_ ↦ rw yes_ (
            writing (
              ap (holding s.got) (
                stream_next sent s.sender.next_number w.next_number (omega (arith, h1))
                  (rw yes_ at p.3))))
        | inr no_ ↦ rw no_ (resting (ap (λ n. holding s.got (stream sent n)) (rw no_ at p.3)))
      ]

-- A possible step of a reliable channel is one of the pipe.
step-Does :
    (sent : ℕ → List ℕ) (s : Channel) (e : Event)
    → IsPossible e s
    → IsReliable sent s
    → Does (action sent e s) (as_pipe sent s) (as_pipe sent (step sent e s))
unfolding action step
step-Does sent s pushes (h1, h2) v = push-writes sent s v h1 h2
step-Does sent s (sender_flushes congestion size rto conv closing current) p v =
    let f = Sending.flush congestion size rto conv closing s.sender current in
    sender-rests sent s v f.0 (s.segments ++ f.1)
      (flush-Same congestion size rto conv closing s.sender current v.sends.is_open).0
step-Does sent s (segment_arrives seg) p v = unfold as_pipe in resting refl
step-Does sent s (sending_next_arrives n) p v = unfold as_pipe in resting refl
step-Does sent s (receiver_flushes current rto conv closing) p v = unfold as_pipe in resting refl
step-Does sent s receiver_pings p v = unfold as_pipe in resting refl
step-Does sent s (ack_arrives a current rto) p v =
    sender-rests sent s v (Sending.process_segment s.sender current a rto).0 s.segments
      (process_segment-Same s.sender current a rto v.sends.is_open).0
step-Does sent s (una_arrives n) p v =
    sender-rests sent s v (Sending.process_receiving_next s.sender n) s.segments
      (process_receiving_next-Same s.sender n).0
step-Does sent s reads_all p v =
    let r = Receiving.read_multi_buffer s.receiver in
    read-takes sent s v r.0 (bytes r.1) (reads_all-ReceiverStep sent s v)
step-Does sent s (reads n) p v =
    let r = Receiving.read s.receiver n in
    read-takes sent s v r.0 r.1 (reads-ReceiverStep sent s v n)

run-Acts :
    (sent : ℕ → List ℕ) (events : List Event) (s : Channel)
    → ArePossible sent events s
    → IsReliable sent s
    → Acts (actions sent events s) (as_pipe sent s) (as_pipe sent (run sent events s))
unfolding actions run
run-Acts sent [] s p v = stop
run-Acts sent (e ∷ events) s p v =
    more (step-Does sent s e p.0 v)
      (run-Acts sent events (step sent e s) p.1 (step-IsReliable sent s e p.0 v))

-- Any run of a new channel whose sender's numbers do not wrap, over a network that may lose, repeat
-- and reorder what is written, is seen by the application and the reader as a run of a pipe that is
-- empty at first: each payload that `Push` takes is appended to it, and each read returns bytes of
-- it that continue the ones read before.
pub run-refines :
    (sent : ℕ → List ℕ) (events : List Event) (in_flight_size buffer_size receiving_size : ℕ)
    → let s = new_channel in_flight_size buffer_size receiving_size in
      ArePossible sent events s
      → Acts
          (actions sent events s)
          (record { written = []; taken = [] })
          (as_pipe sent (run sent events s))
unfolding as_pipe new_channel Sending.new_sending_worker stream
run-refines sent events in_flight_size buffer_size receiving_size p =
    run-Acts sent events (new_channel in_flight_size buffer_size receiving_size) p
      (new_channel-IsReliable sent in_flight_size buffer_size receiving_size)
