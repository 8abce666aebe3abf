-- ===== src/Kcp/Connection/Life.antt =====
-- The life of a connection under any sequence of calls, one at a time.
use gzv2ray_v.Kcp.Connection.Flushes.{flush-Follows}
use gzv2ray_v.Kcp.Connection.Progress.{close-Follows, input-Follows}
use gzv2ray_v.Kcp.Segment.{Segment}
use gzv2ray_v.Kcp.Connection.{
  active, ready_to_close, peer_closed, terminating, peer_terminating, terminated, Connection,
  write_in, write, new_connection, read, State, terminate, Segment, close, is_read_closed, input,
  flush,
}
use gzv2ray_v.Prelude.{ℕ, inl, inr, refl, [], Bool-cases, ◌∷◌, List, Bool, ◌≡◌}
use gzv2ray_v.Kcp.Connection.Steps.{
  Cause, by_close, by_input, by_flush, by_others, Reaches, started, Follows, same_state,
  Follows-refl,
}

-- The calls: of the application, of the socket's reader, of the updaters, and the goroutine of
-- `Terminate`.
pub data Call : Type 0 where
  close_call : Call
  input_call : List Segment → Call
  flush_call : Call
  write_call : List ℕ → Call
  read_call : Call
  terminate_call : Call

abbrev pub cause : Call → Cause
cause close_call = by_close
cause (input_call segs) = by_input
cause flush_call = by_flush
cause (write_call b) = by_others
cause read_call = by_others
cause terminate_call = by_others

-- A call at a time, with the readings of the clock that it takes.
unfoldable pub call : Connection → Call → ℕ → (State → ℕ) → Connection
call c close_call current clock = (close c clock).0
call c (input_call segs) current clock = input c segs current clock
call c flush_call current clock = flush c current clock
call c (write_call b) current clock = (write c b).0
call c read_call current clock = (read c).0
call c terminate_call current clock = terminate c

unfoldable pub run : Connection → List (Call × ℕ × (State → ℕ)) → Connection
run c [] = c
run c ((x, current, clock) ∷ calls) = run (call c x current clock) calls

write_in-Follows :
    (s : State) (c : Connection) (b : List ℕ) → Follows by_others c (write_in s c b).0
unfolding write_in
write_in-Follows active c b = same_state c c _ (Follows-refl c) refl refl
write_in-Follows ready_to_close c b = Follows-refl c
write_in-Follows peer_closed c b = Follows-refl c
write_in-Follows terminating c b = Follows-refl c
write_in-Follows peer_terminating c b = Follows-refl c
write_in-Follows terminated c b = Follows-refl c

read-Follows : (c : Connection) → Follows by_others c (read c).0
unfolding read
read-Follows c = elim (Bool-cases (is_read_closed c.state)) [
  | inl e ↦ rw e (Follows-refl c)
  | inr e ↦ rw e (same_state c c _ (Follows-refl c) refl refl)
]

call-Follows :
    (c : Connection) (x : Call) (current : ℕ) (clock : State → ℕ)
    → Follows (cause x) c (call c x current clock)
unfolding call write terminate
call-Follows c close_call current clock = close-Follows c clock
call-Follows c (input_call segs) current clock = input-Follows c segs current clock
call-Follows c flush_call current clock = flush-Follows c current clock
call-Follows c (write_call b) current clock = write_in-Follows c.state c b
call-Follows c read_call current clock = read-Follows c
call-Follows c terminate_call current clock = same_state c c _ (Follows-refl c) refl refl

run_counted :
    (c : Connection) (calls : List (Call × ℕ × (State → ℕ)))
    → c.terminations ≡ started c.state
    → (run c calls).terminations ≡ started (run c calls).state
unfolding run
run_counted c [] h = h
run_counted c ((x, current, clock) ∷ calls) h =
    run_counted (call c x current clock) calls ((call-Follows c x current clock).counted h)

-- Whatever calls, one at a time, with any clock and any segments, a new connection has had, the
-- next call takes it along the steps of the state machine that this call may cause: a close, an
-- input and a flush each have steps of their own, and reading, writing and the goroutine of
-- `Terminate` leave the state. After the call this goroutine has been started once if the
-- connection is terminated, and never before.
pub run-Reaches :
    (conversation in_flight_size buffer_size receiving_size tti : ℕ) (congestion : Bool)
    (calls : List (Call × ℕ × (State → ℕ))) (x : Call) (current : ℕ) (clock : State → ℕ)
    → let c =
        run
          (new_connection conversation congestion in_flight_size buffer_size receiving_size tti)
          calls in
      let c' = call c x current clock in
      Reaches (cause x) c.state c'.state × (c'.terminations ≡ started c'.state)
unfolding new_connection
run-Reaches conversation in_flight_size buffer_size receiving_size tti congestion calls x current
      clock =
    let c0 = new_connection conversation congestion in_flight_size buffer_size receiving_size tti in
    let f = call-Follows (run c0 calls) x current clock in
    (f.reaches, f.counted (run_counted c0 calls refl))
