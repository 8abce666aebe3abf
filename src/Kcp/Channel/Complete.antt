-- ===== src/Kcp/Channel/Complete.antt =====
-- When everything is acknowledged, everything can be read.
use native.Mathlib.Decide.{dec_lt}
use gzv2ray_v.Buf.{bytes}
use gzv2ray_v.Kcp.Receiving.{ReceivingWorker}
use gzv2ray_v.Kcp.Channel.{
  Event, step, reads_all, run, ArePossible, new_channel, ReceivingWorker, bytes,
}
use gzv2ray_v.Kcp.Channel.Steps.{run-IsReliable, new_channel-IsReliable}
use gzv2ray_v.Kcp.Receiving
use gzv2ray_v.Kcp.Receiving.Drain.{stream}
use gzv2ray_v.Kcp.Receiving.Received.{IsReceived, read_multi_buffer-Keeps}
use gzv2ray_v.Kcp.Receiving.Unwrapped.{read_multi_buffer-InOrder}
use gzv2ray_v.Kcp.Receiving.Stream.{left_bytes, read_multi_buffer-ReadsOn}
use gzv2ray_v.Kcp.Sending.Reliable.{waits}
use gzv2ray_v.Kcp.ReceivingWindow.{has, ReceivingWindow}
use gzv2ray_v.Prelude.Dict.{lookup}
use gzv2ray_v.Prelude.{
  ℕ, List, ◌++◌, arith, ◌≤◌, ◌≡◌, ◌<◌, none, ap, sym, append-nil, ◌∙◌, false, refl,
}

has-none : (window : ReceivingWindow) (n : ℕ) → lookup n window ≡ none → has window n ≡ false
unfolding has
has-none window n e = rw (e, has) refl

-- A worker that has all numbers below `hi` and waits for one that is not there has read them all.
all_read :
    (hi : ℕ) (w : ReceivingWorker)
    → w.next_number ≤ hi
    → ((n : ℕ) → n < hi → IsReceived w n)
    → lookup w.next_number w.window ≡ none
    → w.next_number ≡ hi
all_read hi w le all_ e = elim (dec_lt w.next_number hi) [
  | yes l ↦ absurd (ground (arith, all_ w.next_number l, has-none w.window w.next_number e))
  | no g ↦ omega arith
]

-- After any run of a new channel whose sender's numbers do not wrap, over a network that may lose,
-- repeat and reorder what is written: if no payload waits in the sending window any more and
-- nothing was kept over for the reader, one `ReadMultiBuffer` completes what the reader has got to
-- all that was pushed.
pub run_complete :
    (sent : ℕ → List ℕ) (events : List Event) (in_flight_size buffer_size receiving_size : ℕ)
    → ArePossible sent events (new_channel in_flight_size buffer_size receiving_size)
    → let s = run sent events (new_channel in_flight_size buffer_size receiving_size) in
      ((n : ℕ) → waits n s.sender ≡ none)
      → s.receiver.left_over ≡ none
      → (step sent reads_all s).got ≡ stream sent s.sender.next_number
unfolding step
run_complete sent events in_flight_size buffer_size receiving_size p empty nothing_left =
    let s = run sent events (new_channel in_flight_size buffer_size receiving_size) in
    let v =
      run-IsReliable sent events (new_channel in_flight_size buffer_size receiving_size) p
        (new_channel-IsReliable sent in_flight_size buffer_size receiving_size) in
    let w = (Receiving.read_multi_buffer s.receiver).0 in
    let i =
      read_multi_buffer-InOrder sent s.sender.next_number s.got s.receiver v.sends.valid.no_wrap
        v.receives.within v.receives.in_order in
    let r =
      read_multi_buffer-ReadsOn sent s.receiver.next_number s.got s.receiver v.receives.in_order in
    let k =
      read_multi_buffer-Keeps s.sender.next_number s.receiver v.sends.valid.no_wrap
        v.receives.within in
    let e =
      all_read s.sender.next_number w k.bounded (λ n l. k.stays n (v.kept n l (empty n)))
        (r.exhausted nothing_left) in
    sym (
      ap (λ t. (s.got ++ bytes (Receiving.read_multi_buffer s.receiver).1) ++ left_bytes t)
        r.nothing_left
      ∙ append-nil (s.got ++ bytes (Receiving.read_multi_buffer s.receiver).1))
    ∙ i.delivered
    ∙ ap (stream sent) e
