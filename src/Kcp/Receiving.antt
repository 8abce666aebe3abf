-- ===== src/Kcp/Receiving.antt =====
-- transport/internet/kcp/receiving.go: ReceivingWorker, which acknowledges what arrives and hands
-- the stream on in order. The methods
-- return what the worker does to its caller and the segments that it gives to the connection. Each
-- is one step. All but ReadMultiBuffer and Read hold the lock while they run; these two use `leftOver`
-- without it, so that they are steps for one reader at a time, and while the goroutine of Terminate
-- is not in Release, the only other method that touches `leftOver`. Write runs inside Flush.
pub mod Drain
pub mod Stream
pub mod Run
pub mod Received
pub mod Unwrapped
pub mod Acks
use gzv2ray_v.Prelude.{
  ℕ, ◌≡◌, zero, suc, none, some, [], ◌∷◌, Option, if◌then◌else◌, length, List, Bool, leb, map, ltb,
  ◌++◌,
}
use gzv2ray_v.Prelude.Dict.{lookup}
use gzv2ray_v.Buf.{MultiBuffer, is_empty, split_bytes}
use gzv2ray_v.Kcp.Go.{sub_u32, add_u32}
use gzv2ray_v.Kcp.Segment.{DataSegment, AckSegment, option_close}
use gzv2ray_v.Kcp.ReceivingWindow
use gzv2ray_v.Kcp.ReceivingWindow.{ReceivingWindow}
use gzv2ray_v.Kcp.AckList
use gzv2ray_v.Kcp.AckList.{AckList}

-- `left_over` is `none` for the nil slice.
pub record ReceivingWorker : Type 0 where
  pub left_over : Option MultiBuffer
  pub window : ReceivingWindow
  pub acklist : AckList
  pub next_number : ℕ
  pub window_size : ℕ

-- `NewReceivingWorker`; the window size is the configuration's.
unfoldable pub new_receiving_worker : ℕ → ReceivingWorker
unfolding AckList.new_ack_list
new_receiving_worker size = record {
  left_over = none;
  window = [];
  acklist = AckList.new_ack_list;
  next_number = 0;
  window_size = size;
}

unfoldable pub release : ReceivingWorker → ReceivingWorker
release w = record w { left_over = none }

unfoldable pub process_sending_next : ReceivingWorker → ℕ → ReceivingWorker
process_sending_next w number = record w { acklist = AckList.clear w.acklist number }

-- A segment outside the window is dropped; one inside is acknowledged, also if it is a duplicate.
unfoldable pub process_segment : ReceivingWorker → DataSegment → ReceivingWorker
process_segment w seg =
    if leb w.window_size (sub_u32 seg.number w.next_number) then w else record w {
      acklist = AckList.add (AckList.clear w.acklist seg.sending_next) seg.number seg.timestamp;
      window = (ReceivingWindow.set w.window seg.number seg).0;
    }

-- The loop of `ReadMultiBuffer`: it removes the next number until that is not there.
unfoldable pub drain : ℕ → ReceivingWindow → ℕ → MultiBuffer → ReceivingWindow × ℕ × MultiBuffer
drain zero window next mb = (window, next, mb)
drain (suc fuel) window next mb =
    let (window', found) = ReceivingWindow.remove window next in
    elim found [
      | none ↦ (window', next, mb)
      | some seg ↦ drain fuel window' (add_u32 next 1) (mb ++ (seg.payload ∷ []))
    ]

-- The window is finite, and one round more than it has entries ends the loop.
unfoldable pub read_multi_buffer : ReceivingWorker → ReceivingWorker × MultiBuffer
unfolding drain
read_multi_buffer w = elim w.left_over [
  | some mb ↦ (record w { left_over = none }, mb)
  | none ↦
      let (window, next, mb) = drain (suc (length w.window)) w.window w.next_number [] in
      (record w { window = window; next_number = next }, mb)
]

-- `Read` into a slice of `n` bytes: the bytes that it stores.
unfoldable pub read : ReceivingWorker → ℕ → ReceivingWorker × List ℕ
read w n =
    let (w', mb) = read_multi_buffer w in
    if is_empty mb
    then (w', [])
    else let (rest, got) = split_bytes mb n in
      if is_empty rest then (w', got) else (record w' { left_over = some rest }, got)

unfoldable pub is_data_available : ReceivingWorker → Bool
is_data_available w = ReceivingWindow.has w.window w.next_number

-- `Write`: the fields that the worker adds to an acknowledgement. `closing` is the test of the
-- connection's state against StateReadyToClose.
unfoldable pub stamp : ReceivingWorker → ℕ → Bool → AckSegment → AckSegment
stamp w conv closing seg = record seg {
  conv = conv;
  receiving_next = w.next_number;
  receiving_window = add_u32 w.next_number w.window_size;
  option = if closing then option_close else 0;
}

unfoldable pub flush : ReceivingWorker → ℕ → ℕ → ℕ → Bool → ReceivingWorker × List AckSegment
flush w current rto conv closing =
    let (acklist, segs) = AckList.flush w.acklist current rto in
    (record w { acklist = acklist }, map (stamp w conv closing) segs)

unfoldable pub update_necessary : ReceivingWorker → Bool
update_necessary w = ltb 0 (length w.acklist.numbers)
