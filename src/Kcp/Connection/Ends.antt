-- ===== src/Kcp/Connection/Ends.antt =====
-- A flush behind a timeout leaves the state, and where that does not help.
use gzv2ray_v.Kcp.Connection.Progress.{flush_terminating-Follows}
use gzv2ray_v.Kcp.Connection.Flushes.{flush-Follows, flush_workers-same}
use gzv2ray_v.Kcp.Segment.{command_terminate}
use gzv2ray_v.Kcp.Go.{sub_u32}
use gzv2ray_v.Kcp.Connection.{
  active, ready_to_close, peer_closed, terminating, peer_terminating, terminated, flush_terminating,
  Connection, State, drained_in, set_state, ping, flush_tail, entered, flush, flush_workers,
  timeout_in, sub_u32, command_terminate,
}
use gzv2ray_v.Kcp.Sending
use gzv2ray_v.Prelude.{
  ℕ, true, inl, inr, refl, arith, [], Bool-cases, ◌∷◌, List, ◌≡◌, ◌≤◌, min, ltb, ◌<◌, ◌⊎◌, ◌+◌,
  length, ap, ◌^◌, ◌∙◌, lt→ltb,
}
use gzv2ray_v.Kcp.Connection.Steps.{set_state-state}
use gzv2ray_v.Kcp.Connection.Timeouts.{
  rank, is_due_in, rank-Reaches, flush_open-opened, flush_unopened, flush_drained, opened_expired,
  flush_in_open,
}

flush_terminating-due :
    (c : Connection) (current : ℕ) (clock : State → ℕ)
    → ltb 8000 (sub_u32 current c.state_begin_time) ≡ true
    → (flush_terminating c current clock).state ≡ terminated
unfolding flush_terminating ping
flush_terminating-due c current clock d =
    rw d (set_state-state (ping c current command_terminate) terminated (clock terminated))

module _ (c : Connection) (current : ℕ) (clock : State → ℕ) where
  tail_timed_out :
      (s : State)
      → flush_tail s c current clock ≡ flush_workers (timeout_in s c current clock) current
      → (timeout_in s c current clock).state ≡ terminating
      → (flush_tail s c current clock).state ≡ terminating
  tail_timed_out s e t =
      ap (λ x. x.state) e ∙ (flush_workers-same (timeout_in s c current clock) current).0 ∙ t

  leaves :
      (s t : State)
      → (flush c current clock).state ≡ t
      → rank s < rank t
      → rank s < rank (flush c current clock).state
  leaves s t e h = omega (arith, ap rank e)

  -- A flush of a connection whose time in its state is up takes it to a later state.
  due_leaves :
      (s : State)
      → c.state ≡ s
      → is_due_in s c current ≡ true
      → rank s < rank (flush c current clock).state
  unfolding drained_in flush_tail timeout_in
  due_leaves active e d = omega (
    arith,
    rank-Reaches (flush_open-opened c current clock).reaches,
    ap rank (opened_expired c current clock e d),
    ap (λ x. rank x.state) (flush_in_open c current clock active e (λ p. cc p)),
  )
  due_leaves ready_to_close e d = elim (Bool-cases (Sending.is_empty c.sending_worker)) [
    | inl t ↦
        let c1 = set_state c terminating (clock terminating) in
        omega (
          arith,
          rank-Reaches
              (flush_terminating-Follows c1 current clock
                (set_state-state c terminating (clock terminating))).reaches,
          ap rank (set_state-state c terminating (clock terminating)),
          ap (λ x. rank x.state) (flush_drained c current clock e t),
        )
    | inr t ↦
        leaves ready_to_close terminating
          (ap (λ x. x.state)
              (flush_unopened c current clock ready_to_close e (λ p. cc p) (λ p. cc p) (rw t))
            ∙ tail_timed_out ready_to_close refl
                (rw d (set_state-state c terminating (clock terminating))))
          (omega arith)
  ]
  due_leaves peer_closed e d = absurd (cc d)
  due_leaves peer_terminating e d =
      leaves peer_terminating terminating
        (ap (λ x. x.state)
            (flush_unopened c current clock peer_terminating e (λ p. cc p) (λ p. cc p) refl)
          ∙ tail_timed_out peer_terminating refl
              (rw d (set_state-state c terminating (clock terminating))))
        (omega arith)
  due_leaves terminating e d =
      leaves terminating terminated
        (ap (λ x. x.state)
            (flush_unopened c current clock terminating e (λ p. cc p) (λ p. cc p) refl)
          ∙ flush_terminating-due c current clock d)
        (omega arith)
  due_leaves terminated e d = absurd (cc d)

-- Every flush finds the time up, until the connection is terminated.
abbrev pub AllDue : Connection → List (ℕ × (State → ℕ)) → Type 0
AllDue c [] = Unit
AllDue c ((current, clock) ∷ flushes) =
    ((c.state ≡ terminated) ⊎ (is_due_in c.state c current ≡ true))
    × AllDue (flush c current clock) flushes

unfoldable pub flush_all : Connection → List (ℕ × (State → ℕ)) → Connection
flush_all c [] = c
flush_all c ((current, clock) ∷ flushes) = flush_all (flush c current clock) flushes

rank_terminated : (s : State) → 4 ≤ rank s → s ≡ terminated
rank_terminated active h = absurd (omega arith)
rank_terminated ready_to_close h = absurd (omega arith)
rank_terminated peer_closed h = absurd (omega arith)
rank_terminated peer_terminating h = absurd (omega arith)
rank_terminated terminating h = absurd (omega arith)
rank_terminated terminated h = refl

rises :
    (flushes : List (ℕ × (State → ℕ))) (c : Connection)
    → AllDue c flushes
    → min 4 (rank c.state + length flushes) ≤ rank (flush_all c flushes).state
unfolding flush_all
rises [] c h = omega arith
rises ((current, clock) ∷ flushes) c (inl e, h) = omega (
  arith,
  rises flushes (flush c current clock) h,
  rank-Reaches (flush-Follows c current clock).reaches,
  ap rank e,
)
rises ((current, clock) ∷ flushes) c (inr d, h) =
    omega
      (arith, rises flushes (flush c current clock) h, due_leaves c current clock c.state refl d)

-- Four flushes or more, each of which finds the time of the state up (or the connection terminated
-- already), terminate the connection.
pub flush_all-terminates :
    (c : Connection) (flushes : List (ℕ × (State → ℕ)))
    → AllDue c flushes
    → 4 ≤ length flushes
    → (flush_all c flushes).state ≡ terminated
flush_all-terminates c flushes h l =
    rank_terminated (flush_all c flushes).state (omega (arith, rises flushes c h))

-- No flush, at whatever time, takes a connection out of the state in which only the peer has closed.
pub flush-peer_closed :
    (c : Connection) (current : ℕ) (clock : State → ℕ)
    → c.state ≡ peer_closed
    → (flush c current clock).state ≡ peer_closed
unfolding drained_in flush_tail timeout_in
flush-peer_closed c current clock e =
    ap (λ x. x.state) (flush_unopened c current clock peer_closed e (λ p. cc p) (λ p. cc p) refl)
    ∙ (flush_workers-same c current).0
    ∙ e

-- If the clock, below 2^31, ticks between the flush's own reading and that of `SetState`, the
-- difference wraps round: a connection that is closed here and has nothing more to send is
-- terminated by the flush that enters the terminating state, without the 8 seconds of that state.
pub flush-skips_terminating :
    (c : Connection) (current : ℕ) (clock : State → ℕ)
    → c.state ≡ ready_to_close
    → Sending.is_empty c.sending_worker ≡ true
    → current < clock terminating
    → clock terminating < 2 ^ 31
    → (flush c current clock).state ≡ terminated
unfolding set_state entered
flush-skips_terminating c current clock e t h1 h2 =
    ap (λ x. x.state) (flush_drained c current clock e t)
    ∙ flush_terminating-due (set_state c terminating (clock terminating)) current clock
        (lt→ltb 8000 _ (omega arith))
