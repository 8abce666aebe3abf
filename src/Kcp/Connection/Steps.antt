-- ===== src/Kcp/Connection/Steps.antt =====
-- The state machine of a connection: its steps, and that `SetState` takes them.
use mathlib.Core.Path.{subst}
use gzv2ray_v.Prelude.{ℕ, refl, arith, ◌≡◌, ap, ◌+◌, sym, ◌∙◌}
use gzv2ray_v.Kcp.Connection.{
  Connection, State, set_state, entered, active, ready_to_close, peer_closed, terminating,
  peer_terminating, terminated,
}

-- What moves a connection: the application closes it, a packet arrives, or it is flushed. Reading,
-- writing and the goroutine of `Terminate` do not move it.
pub data Cause : Type 0 where
  by_close : Cause
  by_input : Cause
  by_flush : Cause
  by_others : Cause

-- The steps, each with its cause: a close here, the peer's close and its terminate command, and
-- the timeouts.
pub data Step : Cause → State → State → Type 0 where
  closes : Step by_close active ready_to_close
  peer_closed_closes : Step by_close peer_closed terminating
  peer_terminating_closes : Step by_close peer_terminating terminated
  peer_closes : Step by_input active peer_closed
  both_close : Step by_input ready_to_close terminating
  active_terminate : Step by_input active peer_terminating
  peer_closed_terminate : Step by_input peer_closed peer_terminating
  both_terminate : Step by_input terminating terminated
  expires : Step by_flush active ready_to_close
  finishes : Step by_flush ready_to_close terminating
  gives_up : Step by_flush peer_terminating terminating
  dies : Step by_flush terminating terminated

pub data Reaches (k : Cause) : State → State → Type 0 where
  stays : {s : State} → Reaches k s s
  goes : {s t u : State} → Step k s t → Reaches k t u → Reaches k s u

pub Reaches-trans : {k : Cause} {s t u : State} → Reaches k s t → Reaches k t u → Reaches k s u
Reaches-trans stays q = q
Reaches-trans (goes p r) q = goes p (Reaches-trans r q)

-- `Terminate` was started once if the state is terminated, and never otherwise.
abbrev pub started : State → ℕ
started terminated = 1
started _ = 0

-- What a call from the state `s` has to respect.
pub record Follows (k : Cause) (c c' : Connection) : Type 0 where
  pub reaches : Reaches k c.state c'.state
  pub counted : c.terminations ≡ started c.state → c'.terminations ≡ started c'.state

pub Follows-refl : {k : Cause} (c : Connection) → Follows k c c
Follows-refl c = record { reaches = stays; counted = λ h. h }

pub Follows-trans :
    {k : Cause} (c c' c'' : Connection) → Follows k c c' → Follows k c' c'' → Follows k c c''
Follows-trans c c' c'' p q = record {
  reaches = Reaches-trans p.reaches q.reaches;
  counted = λ h. q.counted (p.counted h);
}

before : {k : Cause} {s t : State} → Step k s t → started s ≡ 0
before closes = refl
before peer_closed_closes = refl
before peer_terminating_closes = refl
before peer_closes = refl
before both_close = refl
before active_terminate = refl
before peer_closed_terminate = refl
before both_terminate = refl
before expires = refl
before finishes = refl
before gives_up = refl
before dies = refl

pub set_state-state : (c : Connection) (s : State) (now : ℕ) → (set_state c s now).state ≡ s
unfolding set_state entered
set_state-state c active now = refl
set_state-state c ready_to_close now = refl
set_state-state c peer_closed now = refl
set_state-state c terminating now = refl
set_state-state c peer_terminating now = refl
set_state-state c terminated now = refl

set_state-terminations :
    (c : Connection) (s : State) (now : ℕ)
    → (set_state c s now).terminations ≡ c.terminations + started s
unfolding set_state entered
set_state-terminations c active now = omega arith
set_state-terminations c ready_to_close now = omega arith
set_state-terminations c peer_closed now = omega arith
set_state-terminations c terminating now = omega arith
set_state-terminations c peer_terminating now = omega arith
set_state-terminations c terminated now = omega arith

pub set_state-Follows :
    {k : Cause} (c : Connection) (s : State) (now : ℕ)
    → Step k c.state s
    → Follows k c (set_state c s now)
set_state-Follows c s now p = record {
  reaches = rw (set_state-state c s now) (goes p stays);
  counted = λ h.
      omega (arith, before p, set_state-terminations c s now, ap started (set_state-state c s now));
}

-- A step from the state that the connection is in.
pub from_state :
    {k : Cause} (c : Connection) (s t : State) (now : ℕ)
    → c.state ≡ s
    → Step k s t
    → Follows k c (set_state c t now)
from_state {k = k} c s t now e p = set_state-Follows c t now (subst (λ u. Step k u t) (sym e) p)

-- What a call does beside the state.
pub same_state :
    {k : Cause} (c c' c'' : Connection)
    → Follows k c c'
    → c''.state ≡ c'.state
    → c''.terminations ≡ c'.terminations
    → Follows k c c''
same_state c c' c'' f e1 e2 = record {
  reaches = rw e1 f.reaches;
  counted = λ h. e2 ∙ f.counted h ∙ ap started (sym e1);
}
