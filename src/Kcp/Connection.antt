-- ===== src/Kcp/Connection.antt =====
-- transport/internet/kcp/connection.go: Connection, its state machine and what it gives to the two
-- workers. Methods are called one at a time here. Each reads the clock `Elapsed` once for itself,
-- which is `current`, and once in every call of `SetState`: `clock s` is that reading for the state
-- `s`, since one call of a method enters no state twice. Signals that wake a blocked goroutine and
-- the socket are left out; what the connection writes is `output`.
use gzv2ray_v.Buf.{MultiBuffer, is_empty}
use gzv2ray_v.Kcp.Segment.{
  Segment, command_terminate, cmd_segment, option_close, ack_segment, data_segment, command_ping,
}
pub mod Steps
pub mod Progress
pub mod Flushes
pub mod Life
pub mod Timeouts
pub mod Ends
mod Tests
use gzv2ray_v.Prelude.{
  ℕ, true, false, none, some, [], ◌∷◌, Bool, ◌+◌, if◌then◌else◌, Option, List, ◌++◌, ◌%◌, ◌==◌, leb,
  ltb, map, ◌&&◌,
}
use gzv2ray_v.Kcp.Go.{sub_u32}
use gzv2ray_v.Kcp.Receiving
use gzv2ray_v.Kcp.Sending
use gzv2ray_v.Kcp.RoundTripInfo
use gzv2ray_v.Kcp.Receiving.{ReceivingWorker}
use gzv2ray_v.Kcp.Sending.{SendingWorker}
use gzv2ray_v.Kcp.RoundTripInfo.{RoundTripInfo}

pub data State : Type 0 where
  active ready_to_close peer_closed terminating peer_terminating terminated : State

-- `terminations` counts the goroutines of `Terminate` that were started, and `ping_interval` is in
-- milliseconds. `congestion` and `in_flight_size` are read from the configuration.
pub record Connection : Type 0 where
  pub state : State
  pub state_begin_time : ℕ
  pub last_incoming_time : ℕ
  pub last_ping_time : ℕ
  pub conversation : ℕ
  pub congestion : Bool
  pub in_flight_size : ℕ
  pub round_trip : RoundTripInfo
  pub receiving_worker : ReceivingWorker
  pub sending_worker : SendingWorker
  pub output : List Segment
  pub ping_interval : ℕ
  pub terminations : ℕ

abbrev pub is_ready_to_close : State → Bool
is_ready_to_close ready_to_close = true
is_ready_to_close _ = false

-- `NewConnection`, with the values of the configuration.
unfoldable pub new_connection : ℕ → Bool → ℕ → ℕ → ℕ → ℕ → Connection
unfolding Receiving.new_receiving_worker Sending.new_sending_worker
new_connection conversation congestion in_flight_size buffer_size receiving_size tti = record {
  state = active;
  state_begin_time = 0;
  last_incoming_time = 0;
  last_ping_time = 0;
  conversation = conversation;
  congestion = congestion;
  in_flight_size = in_flight_size;
  round_trip = record { variation = 0; srtt = 0; rto = 100; min_rtt = tti; updated_timestamp = 0 };
  receiving_worker = Receiving.new_receiving_worker receiving_size;
  sending_worker = Sending.new_sending_worker in_flight_size buffer_size;
  output = [];
  ping_interval = 5000;
  terminations = 0;
}

abbrev close_write : Connection → Connection
close_write c = record c { sending_worker = Sending.close_write c.sending_worker }

-- The switch of `SetState`; `CloseRead` does nothing.
unfoldable pub entered : State → Connection → Connection
entered active c = c
entered ready_to_close c = c
entered peer_closed c = close_write c
entered terminating c = record (close_write c) { ping_interval = 1000 }
entered peer_terminating c = record (close_write c) { ping_interval = 1000 }
entered terminated c = record (close_write c) {
  ping_interval = 1000;
  terminations = c.terminations + 1;
}

unfoldable pub set_state : Connection → State → ℕ → Connection
unfolding entered
set_state c s now = entered s (record c { state = s; state_begin_time = now })

-- `Close`, its switch on the state: false is ErrClosedConnection.
unfoldable pub close_in : State → Connection → (State → ℕ) → Connection × Bool
close_in active c clock = (set_state c ready_to_close (clock ready_to_close), true)
close_in peer_closed c clock = (set_state c terminating (clock terminating), true)
close_in peer_terminating c clock = (set_state c terminated (clock terminated), true)
close_in _ c clock = (c, false)

unfoldable pub close : Connection → (State → ℕ) → Connection × Bool
unfolding close_in
close c clock = close_in c.state c clock

-- The switch of `OnPeerClosed`.
unfoldable pub peer_closed_in : State → Connection → (State → ℕ) → Connection
peer_closed_in ready_to_close c clock = set_state c terminating (clock terminating)
peer_closed_in active c clock = set_state c peer_closed (clock peer_closed)
peer_closed_in _ c clock = c

unfoldable pub on_peer_closed : Connection → (State → ℕ) → Connection
unfolding peer_closed_in
on_peer_closed c clock = peer_closed_in c.state c clock

-- `(opt & SegmentOptionClose) == SegmentOptionClose`, for the option 1.
unfoldable pub handle_option : Connection → ℕ → (State → ℕ) → Connection
unfolding on_peer_closed
handle_option c opt clock = if opt % 2 == option_close then on_peer_closed c clock else c

-- The switch of `Input` at CommandTerminate.
unfoldable pub terminate_in : State → Connection → (State → ℕ) → Connection
terminate_in active c clock = set_state c peer_terminating (clock peer_terminating)
terminate_in peer_closed c clock = set_state c peer_terminating (clock peer_terminating)
terminate_in ready_to_close c clock = set_state c terminating (clock terminating)
terminate_in terminating c clock = set_state c terminated (clock terminated)
terminate_in _ c clock = c

unfoldable pub on_terminate : Connection → (State → ℕ) → Connection
unfolding terminate_in
on_terminate c clock = terminate_in c.state c clock

unfoldable pub conversation_of : Segment → ℕ
conversation_of (data_segment s) = s.conv
conversation_of (ack_segment s) = s.conv
conversation_of (cmd_segment s) = s.conv

unfoldable pub measured : Connection → Option ℕ → ℕ → Connection
measured c none current = c
measured c (some rtt) current = record c {
  round_trip = RoundTripInfo.update c.round_trip rtt current;
}

-- The body of the loop of `Input`, for each kind of segment.
unfoldable pub input_segment : Connection → Segment → ℕ → (State → ℕ) → Connection
unfolding handle_option measured on_terminate
input_segment c (data_segment s) current clock =
    let c1 = handle_option c s.option clock in
    record c1 { receiving_worker = Receiving.process_segment c1.receiving_worker s }
input_segment c (ack_segment s) current clock =
    let c1 = handle_option c s.option clock in
    let (w, rtt) = Sending.process_segment c1.sending_worker current s c1.round_trip.rto in
    measured (record c1 { sending_worker = w }) rtt current
input_segment c (cmd_segment s) current clock =
    let c1 = handle_option c s.option clock in
    let c2 = if s.cmd == command_terminate then on_terminate c1 clock else c1 in
    record c2 {
      sending_worker = Sending.process_receiving_next c2.sending_worker s.receiving_next;
      receiving_worker = Receiving.process_sending_next c2.receiving_worker s.sending_next;
      round_trip = RoundTripInfo.update_peer_rto c2.round_trip s.peer_rto current;
    }

-- The loop, which a segment of another conversation ends.
unfoldable pub input_loop : List Segment → Connection → ℕ → (State → ℕ) → Connection
unfolding conversation_of input_segment
input_loop [] c current clock = c
input_loop (s ∷ segs) c current clock =
    let rest = input_loop segs (input_segment c s current clock) current clock in
    if conversation_of s == c.conversation then rest else c

unfoldable pub input : Connection → List Segment → ℕ → (State → ℕ) → Connection
unfolding input_loop
input c segs current clock =
    input_loop segs (record c { last_incoming_time = current }) current clock

unfoldable pub ping : Connection → ℕ → ℕ → Connection
ping c current cmd = record c {
  last_ping_time = current;
  output =
      c.output
      ++ (cmd_segment (record {
        conv = c.conversation;
        cmd = cmd;
        option = if is_ready_to_close c.state then option_close else 0;
        sending_next = c.sending_worker.first_unacknowledged;
        receiving_next = c.receiving_worker.next_number;
        peer_rto = c.round_trip.rto;
      })
          ∷ []);
}

-- The tests of `flush` before the terminating state: an active connection without input, and one
-- that is closed here and has nothing more to send.
unfoldable pub expire_in : State → Connection → ℕ → (State → ℕ) → Connection
unfolding close
expire_in active c current clock =
    if leb 30000 (sub_u32 current c.last_incoming_time) then (close c clock).0 else c
expire_in _ c current clock = c

unfoldable pub drained_in : State → Connection → (State → ℕ) → Connection
unfolding Sending.is_empty
drained_in ready_to_close c clock =
    if Sending.is_empty c.sending_worker then set_state c terminating (clock terminating) else c
drained_in _ c clock = c

unfoldable pub flush_terminating : Connection → ℕ → (State → ℕ) → Connection
unfolding ping
flush_terminating c current clock =
    let c1 = ping c current command_terminate in
    if ltb 8000 (sub_u32 current c1.state_begin_time)
    then set_state c1 terminated (clock terminated)
    else c1

-- The two timeouts behind it.
unfoldable pub timeout_in : State → Connection → ℕ → (State → ℕ) → Connection
timeout_in peer_terminating c current clock =
    if ltb 4000 (sub_u32 current c.state_begin_time)
    then set_state c terminating (clock terminating)
    else c
timeout_in ready_to_close c current clock =
    if ltb 15000 (sub_u32 current c.state_begin_time)
    then set_state c terminating (clock terminating)
    else c
timeout_in _ c current clock = c

-- `receivingWorker.Flush`, `sendingWorker.Flush`, and whether the latter pings.
unfoldable pub flushed_workers : Connection → ℕ → Connection × Bool
flushed_workers c current =
    let closing = is_ready_to_close c.state in
    let (r, acks) =
      Receiving.flush c.receiving_worker current c.round_trip.rto c.conversation closing in
    let (s, written, updated) =
      Sending.flush c.congestion c.in_flight_size c.round_trip.rto c.conversation closing
        c.sending_worker current in
    (
      record c {
        receiving_worker = r;
        sending_worker = s;
        output = c.output ++ (map ack_segment acks ++ map data_segment written);
      },
      updated,
    )

unfoldable pub ping_if : Bool → Connection → ℕ → Connection
unfolding ping
ping_if true c current = ping c current command_ping
ping_if false c current = c

-- The end of `flush`.
unfoldable pub flush_workers : Connection → ℕ → Connection
unfolding flushed_workers ping_if
flush_workers c current =
    let (c1, updated) = flushed_workers c current in
    let c2 = ping_if updated c1 current in
    ping_if (leb 3000 (sub_u32 current c2.last_ping_time)) c2 current

unfoldable pub flush_tail : State → Connection → ℕ → (State → ℕ) → Connection
unfolding flush_terminating timeout_in flush_workers
flush_tail terminating c current clock = flush_terminating c current clock
flush_tail s c current clock = flush_workers (timeout_in s c current clock) current

unfoldable pub flush_open : Connection → ℕ → (State → ℕ) → Connection
unfolding expire_in drained_in flush_tail
flush_open c current clock =
    let c1 = expire_in c.state c current clock in
    let c2 = drained_in c1.state c1 clock in flush_tail c2.state c2 current clock

unfoldable pub flush_in : State → Connection → ℕ → (State → ℕ) → Connection
unfolding flush_open
flush_in terminated c current clock = c
flush_in _ c current clock = flush_open c current clock

unfoldable pub flush : Connection → ℕ → (State → ℕ) → Connection
unfolding flush_in
flush c current clock = flush_in c.state c current clock

-- The goroutine that the terminated state starts.
unfoldable pub terminate : Connection → Connection
unfolding Receiving.release Sending.release
terminate c = record c {
  sending_worker = Sending.release c.sending_worker;
  receiving_worker = Receiving.release c.receiving_worker;
}

-- A round of `writeMultiBufferInternal`: none is ErrClosedPipe, false a full window.
unfoldable pub write_in : State → Connection → List ℕ → Connection × Option Bool
write_in active c b =
    let (w, accepted) = Sending.push c.sending_worker b in
    (record c { sending_worker = w }, some accepted)
write_in _ c b = (c, none)

unfoldable pub write : Connection → List ℕ → Connection × Option Bool
unfolding write_in
write c b = write_in c.state c b

-- `c.State().Is(StateReadyToClose, StateTerminating, StateTerminated)`
unfoldable pub is_read_closed : State → Bool
is_read_closed ready_to_close = true
is_read_closed terminating = true
is_read_closed terminated = true
is_read_closed _ = false

unfoldable pub is_peer_terminating : State → Bool
is_peer_terminating peer_terminating = true
is_peer_terminating _ = false

-- A round of `ReadMultiBuffer`: none is io.EOF, no bytes a wait.
unfoldable pub read : Connection → Connection × Option MultiBuffer
unfolding is_read_closed is_peer_terminating
read c =
    if is_read_closed c.state
    then (c, none)
    else let (w, mb) = Receiving.read_multi_buffer c.receiving_worker in
      (
        record c { receiving_worker = w },
        (if is_empty mb && is_peer_terminating c.state then none else some mb),
      )
