-- ===== src/Mux/Session/Closed.antt =====
-- The end of a manager: by `Close`, or by a `CloseIfNoSession` that returns true.
use gzv2ray_v.Prelude.{
  ℕ, true, false, inl, inr, none, refl, [], ◌∷◌, List, ◌≡◌, ◌++◌, length, Bool-cases, ◌∙◌, ◌==◌,
  ==_iff, append_assoc, append-nil, nil_of_length,
}
use gzv2ray_v.Mux.Session.{
  SessionManager, new_session_manager, allocate, add, remove, get, close_if_no_session, close,
  close_session,
}
use gzv2ray_v.Mux.Session.Calls.{
  Call, allocate_call, add_call, remove_call, close_session_call, close_if_no_session_call,
  close_call, call, allocated, run, run_closed, closed_call,
}

-- A manager that is closed holds no session.
abbrev IsEmptied : SessionManager → Type 0
IsEmptied m = m.closed ≡ true → m.sessions ≡ []

-- The call ends the manager.
abbrev pub Closes : Call → SessionManager → Type 0
Closes close_call m = Unit
Closes close_if_no_session_call m = (close_if_no_session m).1 ≡ true
Closes _ m = ⊥

open_call-IsEmptied : (m : SessionManager) (c : Call) → m.closed ≡ false → IsEmptied (call c m).0
unfolding call allocate add remove close_session close_if_no_session close
open_call-IsEmptied m allocate_call o = rw (allocate, o) (λ e. absurd (cc e))
open_call-IsEmptied m (add_call s) o = rw (add, o) (λ e. absurd (cc e))
open_call-IsEmptied m (remove_call id) o = rw (remove, o) (λ e. absurd (cc e))
open_call-IsEmptied m (close_session_call s) o = rw (remove, o) (λ e. absurd (cc e))
open_call-IsEmptied m close_if_no_session_call o = elim (Bool-cases (length m.sessions == 0)) [
  | inl t ↦ rw (close_if_no_session, o, t) (λ e. nil_of_length m.sessions ((==_iff _ _).0 t))
  | inr t ↦ rw (close_if_no_session, o, t) (λ e. absurd (cc e))
]
open_call-IsEmptied m close_call o = rw (close, o) (λ e. refl)

call-IsEmptied : (m : SessionManager) (c : Call) → IsEmptied m → IsEmptied (call c m).0
call-IsEmptied m c h = elim (Bool-cases m.closed) [
  | inl e ↦ rw (closed_call m c e) h
  | inr e ↦ open_call-IsEmptied m c e
]

run-IsEmptied : (calls : List Call) (m : SessionManager) → IsEmptied m → IsEmptied (run calls m).0
unfolding run
run-IsEmptied [] m h = h
run-IsEmptied (c ∷ calls) m h = run-IsEmptied calls (call c m).0 (call-IsEmptied m c h)

run-append :
    (a b : List Call) (m : SessionManager)
    → run (a ++ b) m ≡ ((run b (run a m).0).0, (run a m).1 ++ (run b (run a m).0).1)
unfolding run
run-append [] b m = refl
run-append (c ∷ a) b m =
    rw
      (
        run-append a b (call c m).0,
        append_assoc (allocated (call c m).1) (run a (call c m).0).1
            (run b (run a (call c m).0).0).1,
      )
      refl

closing_call :
    (m : SessionManager) (c : Call)
    → Closes c m
    → ((call c m).0.closed ≡ true) × (allocated (call c m).1 ≡ [])
unfolding call close close_if_no_session allocated
closing_call m close_call h = elim (Bool-cases m.closed) [
  | inl e ↦ (rw (close, e) refl, refl)
  | inr e ↦ (rw (close, e) refl, refl)
]
closing_call m close_if_no_session_call h = elim (Bool-cases m.closed) [
  | inl e ↦ (rw (close_if_no_session, e) refl, refl)
  | inr e ↦ elim (Bool-cases (length m.sessions == 0)) [
    | inl t ↦ (rw (close_if_no_session, e, t) refl, refl)
    | inr t ↦ absurd (cc (rw (close_if_no_session, e, t) at h))
  ]
]
closing_call m allocate_call h = elim h [ ]
closing_call m (add_call _) h = elim h [ ]
closing_call m (remove_call _) h = elim h [ ]
closing_call m (close_session_call _) h = elim h [ ]

ended :
    (m : SessionManager) (c : Call) (later : List Call)
    → Closes c m
    → run (c ∷ later) m ≡ ((call c m).0, [])
unfolding run
ended m c later h = let k = closing_call m c h in rw (run_closed (call c m).0 later k.0, k.1) refl

get_closed : (m : SessionManager) (id : ℕ) → m.closed ≡ true → get m id ≡ none
unfolding get
get_closed m id e = rw e refl

close_closed : (m : SessionManager) → m.closed ≡ true → (close m).1 ≡ []
unfolding close
close_closed m e = rw e refl

-- After any calls on a new manager, `Close` and a `CloseIfNoSession` that returns true end it:
-- whatever is called then, `Add` too, leaves it as it is and allocates nothing. It is closed and
-- holds no session, so none is found, and a second `Close` closes no reader and no writer.
pub closing_ends :
    (earlier later : List Call) (c : Call)
    → Closes c (run earlier new_session_manager).0
    → let (m, ids) = run earlier new_session_manager in
      let m' = (call c m).0 in
      (run (earlier ++ (c ∷ later)) new_session_manager ≡ (m', ids))
      × (m'.closed ≡ true)
      × (m'.sessions ≡ [])
      × ((id : ℕ) → get m' id ≡ none)
      × ((close m').1 ≡ [])
unfolding new_session_manager
closing_ends earlier later c h =
    let m = (run earlier new_session_manager).0 in
    let k = closing_call m c h in
    (
      run-append earlier (c ∷ later) new_session_manager
          ∙ rw (ended m c later h, append-nil (run earlier new_session_manager).1) refl,
      k.0,
      call-IsEmptied m c (run-IsEmptied earlier new_session_manager (λ e. refl)) k.0,
      λ id. get_closed (call c m).0 id k.0,
      close_closed (call c m).0 k.0,
    )
