-- ===== src/Kcp/Connection/Timeouts.antt =====
-- The order of the states that a connection goes through, and when a flush finds the time of a state
-- up.
use gzv2ray_v.Kcp.Go.{sub_u32}
use gzv2ray_v.Kcp.Connection.Progress.{drained_in-Follows}
use gzv2ray_v.Kcp.Connection.Steps.{
  closes, peer_closes, active_terminate, peer_closed_terminate, peer_closed_closes, finishes,
  gives_up, peer_terminating_closes, dies,
}
use gzv2ray_v.Kcp.Sending
use gzv2ray_v.Kcp.Connection.Steps.{set_state-state}
use gzv2ray_v.Prelude.{ℕ, true, false, refl, arith, ◌<◌, ◌≤◌, Bool, leb, ◌≡◌, ◌≢◌, ltb, ap, ◌∙◌}
use gzv2ray_v.Kcp.Connection.{
  active, ready_to_close, peer_closed, terminating, peer_terminating, terminated, State, Connection,
  expire_in, drained_in, flush_open, flush, flush_in, close, close_in, sub_u32, set_state, entered,
  flush_tail, flush_terminating,
}
use gzv2ray_v.Kcp.Connection.Steps.{
  Step, Cause, by_flush, expires, both_close, both_terminate, Reaches, stays, goes, Follows,
  Follows-trans,
}
use gzv2ray_v.Kcp.Connection.Flushes.{flush_tail-Follows}

-- How far a state is in the life of a connection.
abbrev pub rank : State → ℕ
rank active = 0
rank ready_to_close = 1
rank peer_closed = 1
rank peer_terminating = 2
rank terminating = 3
rank terminated = 4

rank-Step : {k : Cause} {s t : State} → Step k s t → rank s < rank t
rank-Step closes = omega arith
rank-Step peer_closed_closes = omega arith
rank-Step peer_terminating_closes = omega arith
rank-Step peer_closes = omega arith
rank-Step both_close = omega arith
rank-Step active_terminate = omega arith
rank-Step peer_closed_terminate = omega arith
rank-Step both_terminate = omega arith
rank-Step expires = omega arith
rank-Step finishes = omega arith
rank-Step gives_up = omega arith
rank-Step dies = omega arith

pub rank-Reaches : {k : Cause} {s t : State} → Reaches k s t → rank s ≤ rank t
rank-Reaches stays = omega arith
rank-Reaches (goes p r) = omega (arith, rank-Step p, rank-Reaches r)

-- The time is up: no input for 30 seconds, or too long in a closing state. A connection that only
-- the peer has closed has no limit.
abbrev pub is_due_in : State → Connection → ℕ → Bool
is_due_in active c current = leb 30000 (sub_u32 current c.last_incoming_time)
is_due_in ready_to_close c current = ltb 15000 (sub_u32 current c.state_begin_time)
is_due_in peer_closed c current = false
is_due_in peer_terminating c current = ltb 4000 (sub_u32 current c.state_begin_time)
is_due_in terminating c current = ltb 8000 (sub_u32 current c.state_begin_time)
is_due_in terminated c current = false

module _ (c : Connection) (current : ℕ) (clock : State → ℕ) where
  -- The connection behind the first test of an open flush.
  pub opened : Connection
  opened = expire_in c.state c current clock

  drained : Connection
  drained = drained_in opened.state opened clock

  drained-Follows : Follows by_flush opened drained
  unfolding drained
  drained-Follows = drained_in-Follows opened.state opened clock refl

  flush_open-drained : Follows by_flush drained (flush_open c current clock)
  unfolding flush_open drained opened
  flush_open-drained = flush_tail-Follows drained.state drained current clock refl

  pub flush_open-opened : Follows by_flush opened (flush_open c current clock)
  flush_open-opened = Follows-trans opened drained _ drained-Follows flush_open-drained

  pub flush_in_open :
      (s : State)
      → c.state ≡ s
      → s ≢ terminated
      → flush c current clock ≡ flush_open c current clock
  unfolding flush flush_in
  flush_in_open active e n = ap (λ s. flush_in s c current clock) e
  flush_in_open ready_to_close e n = ap (λ s. flush_in s c current clock) e
  flush_in_open peer_closed e n = ap (λ s. flush_in s c current clock) e
  flush_in_open terminating e n = ap (λ s. flush_in s c current clock) e
  flush_in_open peer_terminating e n = ap (λ s. flush_in s c current clock) e
  flush_in_open terminated e n = absurd (n refl)

  -- A closed connection passes the first test unchanged.
  opened_closed : (s : State) → c.state ≡ s → s ≢ active → opened ≡ c
  unfolding opened expire_in
  opened_closed active e n = absurd (n refl)
  opened_closed ready_to_close e n = ap (λ s. expire_in s c current clock) e
  opened_closed peer_closed e n = ap (λ s. expire_in s c current clock) e
  opened_closed terminating e n = ap (λ s. expire_in s c current clock) e
  opened_closed peer_terminating e n = ap (λ s. expire_in s c current clock) e
  opened_closed terminated e n = ap (λ s. expire_in s c current clock) e

  pub opened_expired :
      c.state ≡ active
      → leb 30000 (sub_u32 current c.last_incoming_time) ≡ true
      → opened.state ≡ ready_to_close
  unfolding opened expire_in close close_in set_state entered
  opened_expired e d =
      ap (λ s. (expire_in s c current clock).state) e
      ∙ rw d (
          ap (λ s. (close_in s c clock).0.state) e
          ∙ set_state-state c ready_to_close (clock ready_to_close))

  -- A flush that the two first tests let through.
  pub flush_unopened :
      (s : State)
      → c.state ≡ s
      → s ≢ active
      → s ≢ terminated
      → drained_in s c clock ≡ c
      → flush c current clock ≡ flush_tail s c current clock
  unfolding drained flush_open opened
  flush_unopened s e n1 n2 d =
      flush_in_open s e n2
      ∙ ap (λ x. flush_tail x.state x current clock) same
      ∙ ap (λ t. flush_tail t c current clock) e
    where
      same : drained ≡ c
      same =
          ap (λ x. drained_in x.state x clock) (opened_closed s e n1)
          ∙ ap (λ t. drained_in t c clock) e
          ∙ d

  -- One that finds a connection closed here with nothing more to send.
  pub flush_drained :
      c.state ≡ ready_to_close
      → Sending.is_empty c.sending_worker ≡ true
      → flush c current clock
        ≡ flush_terminating (set_state c terminating (clock terminating)) current clock
  unfolding drained drained_in flush_open opened flush_tail
  flush_drained e t =
      flush_in_open ready_to_close e (λ p. cc p)
      ∙ ap (λ x. flush_tail x.state x current clock) finished
      ∙ ap (λ s. flush_tail s (set_state c terminating (clock terminating)) current clock)
          (set_state-state c terminating (clock terminating))
    where
      finished : drained ≡ set_state c terminating (clock terminating)
      finished =
          ap (λ x. drained_in x.state x clock) (opened_closed ready_to_close e (λ p. cc p))
          ∙ ap (λ s. drained_in s c clock) e
          ∙ rw t
