-- ===== src/Kcp/Connection/Flushes.antt =====
-- `flush` beside the steps of the state machine.
use gzv2ray_v.Kcp.Go.{sub_u32}
use gzv2ray_v.Kcp.Connection.Progress.{
  flush_terminating-Follows, timeout_in-Follows, expire_in-Follows, drained_in-Follows,
}
use gzv2ray_v.Kcp.Connection.{
  active, ready_to_close, peer_closed, terminating, peer_terminating, terminated, ping_if,
  flushed_workers, timeout_in, expire_in, drained_in, sub_u32,
}
use gzv2ray_v.Prelude.{ℕ, true, false, refl, Bool, ◌≡◌, leb, ◌∙◌}
use gzv2ray_v.Kcp.Connection.{
  Connection, State, flush_workers, flush_tail, flush_open, flush_in, flush, ping,
}
use gzv2ray_v.Kcp.Connection.Steps.{Follows, by_flush, Follows-refl, same_state, Follows-trans}

ping_if-same :
    (b : Bool) (c : Connection) (current : ℕ)
    → ((ping_if b c current).state ≡ c.state)
      × ((ping_if b c current).terminations ≡ c.terminations)
unfolding ping_if ping
ping_if-same true c current = (refl, refl)
ping_if-same false c current = (refl, refl)

-- The workers are flushed in whatever state the connection is in, and leave it there.
pub flush_workers-same :
    (c : Connection) (current : ℕ)
    → ((flush_workers c current).state ≡ c.state)
      × ((flush_workers c current).terminations ≡ c.terminations)
unfolding flush_workers flushed_workers
flush_workers-same c current =
    let (c1, updated) = flushed_workers c current in
    let c2 = ping_if updated c1 current in
    let p = ping_if-same updated c1 current in
    let q = ping_if-same (leb 3000 (sub_u32 current c2.last_ping_time)) c2 current in
    (q.0 ∙ p.0, q.1 ∙ p.1)

timed_out :
    (s : State) (c : Connection) (current : ℕ) (clock : State → ℕ)
    → c.state ≡ s
    → Follows by_flush c (flush_workers (timeout_in s c current clock) current)
timed_out s c current clock e =
    let c1 = timeout_in s c current clock in
    let w = flush_workers-same c1 current in
    same_state c c1 _ (timeout_in-Follows s c current clock e) w.0 w.1

pub flush_tail-Follows :
    (s : State) (c : Connection) (current : ℕ) (clock : State → ℕ)
    → c.state ≡ s
    → Follows by_flush c (flush_tail s c current clock)
unfolding flush_tail
flush_tail-Follows terminating c current clock e = flush_terminating-Follows c current clock e
flush_tail-Follows active c current clock e = timed_out active c current clock e
flush_tail-Follows ready_to_close c current clock e = timed_out ready_to_close c current clock e
flush_tail-Follows peer_closed c current clock e = timed_out peer_closed c current clock e
flush_tail-Follows peer_terminating c current clock e = timed_out peer_terminating c current clock e
flush_tail-Follows terminated c current clock e = timed_out terminated c current clock e

flush_open-Follows :
    (c : Connection) (current : ℕ) (clock : State → ℕ)
    → Follows by_flush c (flush_open c current clock)
unfolding flush_open
flush_open-Follows c current clock =
    let c1 = expire_in c.state c current clock in
    let c2 = drained_in c1.state c1 clock in
    Follows-trans c c1 _ (expire_in-Follows c.state c current clock refl) (
      Follows-trans c1 c2 _ (drained_in-Follows c1.state c1 clock refl)
        (flush_tail-Follows c2.state c2 current clock refl))

flush_in-Follows :
    (s : State) (c : Connection) (current : ℕ) (clock : State → ℕ)
    → Follows by_flush c (flush_in s c current clock)
unfolding flush_in
flush_in-Follows terminated c current clock = Follows-refl c
flush_in-Follows active c current clock = flush_open-Follows c current clock
flush_in-Follows ready_to_close c current clock = flush_open-Follows c current clock
flush_in-Follows peer_closed c current clock = flush_open-Follows c current clock
flush_in-Follows terminating c current clock = flush_open-Follows c current clock
flush_in-Follows peer_terminating c current clock = flush_open-Follows c current clock

pub flush-Follows :
    (c : Connection) (current : ℕ) (clock : State → ℕ) → Follows by_flush c (flush c current clock)
unfolding flush
flush-Follows c current clock = flush_in-Follows c.state c current clock
