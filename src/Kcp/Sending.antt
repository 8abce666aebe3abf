-- ===== src/Kcp/Sending.antt =====
-- transport/internet/kcp/sending.go: SendingWorker, which numbers what is sent, keeps it until it is
-- acknowledged, and paces it. Each method is one step: it holds the lock while it uses the worker, and
-- Write and OnPacketLoss run inside Flush. The ping that Flush asks for behind the lock is returned. What the
-- methods read of the connection is an argument: its conversation, its configuration, whether it is
-- in StateReadyToClose, and the round trip's timeout.
pub mod Reliable
pub mod Acknowledge
pub mod Control
pub mod Written
use gzv2ray_v.Prelude.{
  ℕ, ◌==◌, true, false, none, some, [], ◌∷◌, Bool, if◌then◌else◌, List, Option, ltb, not, ◌||◌,
  length, ◌&&◌, leb, ◌*◌, ◌%◌, ◌^◌, ◌/◌,
}
use gzv2ray_v.Kcp.Go.{sub_u32, add_u32}
use gzv2ray_v.Kcp.Segment.{DataSegment, AckSegment, option_close}
use gzv2ray_v.Kcp.SendingWindow
use gzv2ray_v.Kcp.SendingWindow.{SendingWindow}

-- `fastResend` is set and never read.
pub record SendingWorker : Type 0 where
  pub window : SendingWindow
  pub first_unacknowledged : ℕ
  pub next_number : ℕ
  pub remote_next_number : ℕ
  pub control_window : ℕ
  pub window_size : ℕ
  pub first_unacknowledged_updated : Bool
  pub closed : Bool

-- `NewSendingWorker`, with GetSendingInFlightSize and GetSendingBufferSize of the configuration.
unfoldable pub new_sending_worker : ℕ → ℕ → SendingWorker
unfolding SendingWindow.new_sending_window
new_sending_worker in_flight_size buffer_size = record {
  window = SendingWindow.new_sending_window;
  first_unacknowledged = 0;
  next_number = 0;
  remote_next_number = 32;
  control_window = in_flight_size;
  window_size = buffer_size;
  first_unacknowledged_updated = false;
  closed = false;
}

unfoldable pub release : SendingWorker → SendingWorker
release w = record w { window = record w.window { cache = [] }; closed = true }

unfoldable pub find_first_unacknowledged : SendingWorker → SendingWorker
unfolding SendingWindow.first_number
find_first_unacknowledged w =
    let first = elim (SendingWindow.first_number w.window) as (λ o. ℕ) [
      | some n ↦ n
      | none ↦ w.next_number
    ] in
    record w {
      first_unacknowledged = first;
      first_unacknowledged_updated =
          if w.first_unacknowledged == first then w.first_unacknowledged_updated else true;
    }

unfoldable pub process_receiving_next : SendingWorker → ℕ → SendingWorker
unfolding find_first_unacknowledged
process_receiving_next w next_number =
    find_first_unacknowledged (record w { window = SendingWindow.clear w.window next_number })

unfoldable pub process_ack : SendingWorker → ℕ → SendingWorker × Bool
process_ack w number =
    if ltb 0x7FFFFFFF (sub_u32 number w.first_unacknowledged)
      || ltb (sub_u32 number w.next_number) 0x7FFFFFFF
    then (w, false)
    else let (window, removed) = SendingWindow.remove w.window number in
      let w' = record w { window = window } in
      ((if removed then find_first_unacknowledged w' else w'), removed)

-- The loop over `seg.NumberList`, with `maxack` and `maxackRemoved`.
unfoldable pub process_acks : List ℕ → SendingWorker → ℕ → Bool → SendingWorker × ℕ × Bool
unfolding process_ack
process_acks [] w maxack removed = (w, maxack, removed)
process_acks (number ∷ numbers) w maxack removed =
    let (w', r) = process_ack w number in
    process_acks numbers w' (if ltb maxack number then number else maxack)
      (if ltb maxack number then r else removed)

unfoldable pub raise_remote : SendingWorker → ℕ → SendingWorker
raise_remote w receiving_window = record w {
  remote_next_number =
      if ltb w.remote_next_number receiving_window then receiving_window else w.remote_next_number;
}

-- The end of `ProcessSegment`: the worker, and the round trip time for `roundTrip.Update`, if it is
-- called.
unfoldable pub after_acks : SendingWorker × ℕ × Bool → ℕ → AckSegment → ℕ → SendingWorker × Option ℕ
after_acks (w, maxack, removed) current seg rto =
    if removed
    then (
      record w { window = SendingWindow.handle_fast_ack w.window maxack rto },
      (if ltb (sub_u32 current seg.timestamp) 10000
          then some (sub_u32 current seg.timestamp)
          else none),
    )
    else (w, none)

unfoldable pub process_segment : SendingWorker → ℕ → AckSegment → ℕ → SendingWorker × Option ℕ
process_segment w current seg rto =
    if w.closed
    then (w, none)
    else let w' = process_receiving_next (raise_remote w seg.receiving_window) seg.receiving_next in
      if length seg.number_list == 0
      then (w', none)
      else after_acks (process_acks seg.number_list w' 0 false) current seg rto

unfoldable pub push : SendingWorker → List ℕ → SendingWorker × Bool
push w b =
    if w.closed
    then (w, false)
    else if ltb w.window_size (SendingWindow.len w.window)
    then (w, false)
    else (
      record w {
        window = SendingWindow.push w.window w.next_number b;
        next_number = add_u32 w.next_number 1;
      },
      true,
    )

-- The fields that `Write` sets in a data segment.
unfoldable pub stamp : SendingWorker → ℕ → Bool → DataSegment → DataSegment
stamp w conv closing seg = record seg {
  conv = conv;
  sending_next = w.first_unacknowledged;
  option = if closing then option_close else 0;
}

-- `OnPacketLoss`, with the configuration's Congestion and GetSendingInFlightSize and the timeout.
unfoldable pub on_packet_loss : Bool → ℕ → ℕ → SendingWorker → ℕ → SendingWorker
on_packet_loss congestion in_flight_size rto w loss_rate =
    if not congestion || rto == 0
    then w
    else let c1 =
        if leb 15 loss_rate
        then 3 * w.control_window % 2 ^ 32 / 4
        else if leb loss_rate 5
        then add_u32 w.control_window (w.control_window / 4)
        else w.control_window in
      let c2 = if ltb c1 16 then 16 else c1 in
      let limit = 2 * in_flight_size % 2 ^ 32 in
      record w { control_window = if ltb limit c2 then limit else c2 }

-- `cwnd` of `Flush`.
unfoldable pub congestion_window : Bool → ℕ → SendingWorker → ℕ
congestion_window congestion in_flight_size w =
    let room = sub_u32 w.remote_next_number w.first_unacknowledged in
    let c1 = if ltb room in_flight_size then room else in_flight_size in
    let c2 = if congestion && ltb w.control_window c1 then w.control_window else c1 in
    c2 * 20 % 2 ^ 32

-- `onPacketLoss` of the window, which it calls with the rate if it has one.
unfoldable pub report_loss : Bool → ℕ → ℕ → Option ℕ → SendingWorker → SendingWorker
unfolding on_packet_loss
report_loss congestion in_flight_size rto none w = w
report_loss congestion in_flight_size rto (some rate) w =
    on_packet_loss congestion in_flight_size rto w rate

-- `Flush`: the worker, the segments written, and whether the connection is pinged.
unfoldable pub flush :
    Bool → ℕ → ℕ → ℕ → Bool → SendingWorker → ℕ → SendingWorker × List DataSegment × Bool
unfolding stamp report_loss congestion_window
flush congestion in_flight_size rto conv closing w current =
    if w.closed
    then (w, [], false)
    else if SendingWindow.is_empty w.window
    then (record w { first_unacknowledged_updated = false }, [], w.first_unacknowledged_updated)
    else let (window, written, loss) =
        SendingWindow.flush (stamp w conv closing) w.window current rto
          (congestion_window congestion in_flight_size w) in
      let w1 = record w { window = window; first_unacknowledged_updated = false } in
      (report_loss congestion in_flight_size rto loss w1, written, false)

unfoldable pub close_write : SendingWorker → SendingWorker
close_write w = record w { window = SendingWindow.clear w.window 0xFFFFFFFF }

unfoldable pub is_empty : SendingWorker → Bool
is_empty w = SendingWindow.is_empty w.window
