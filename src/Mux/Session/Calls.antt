-- ===== src/Mux/Session/Calls.antt =====
-- The calls of a manager, and what they do branch by branch.
use gzv2ray_v.Prelude.{
  ℕ, zero, suc, none, some, refl, arith, [], ◌∷◌, Option, List, ◌≡◌, ◌++◌, ◌≤◌, ◌+◌, length, true,
  false, Bool, ◌<◌, ◌^◌, ◌%◌,
}
use gzv2ray_v.Prelude.Dict.{lookup, insert, delete, lookup-delete}
use gzv2ray_v.Mux.Session.{
  Session, SessionManager, allocate, add, remove, close_if_no_session, close, close_session,
}

-- The calls that change the manager. A client allocates its sessions, and a server adds those that
-- its client has numbered.
pub data Call : Type 0 where
  allocate_call : Call
  add_call : Session → Call
  remove_call : ℕ → Call
  close_session_call : Session → Call
  close_if_no_session_call : Call
  close_call : Call

-- A client makes every call but `Add`.
abbrev pub IsClientCall : Call → Type 0
IsClientCall (add_call s) = ⊥
IsClientCall _ = Unit

-- A call: the manager after it, and the session that it allocates, if it does.
unfoldable pub call : Call → SessionManager → SessionManager × Option Session
call allocate_call m = allocate m
call (add_call s) m = (add m s, none)
call (remove_call id) m = (remove m id, none)
call (close_session_call s) m = ((close_session m s).0, none)
call close_if_no_session_call m = ((close_if_no_session m).0, none)
call close_call m = ((close m).0, none)

unfoldable pub allocated : Option Session → List ℕ
allocated none = []
allocated (some s) = s.id ∷ []

-- The calls in a row, with the numbers allocated.
unfoldable pub run : List Call → SessionManager → SessionManager × List ℕ
unfolding call allocated
run [] m = (m, [])
run (c ∷ calls) m =
    let (m1, s) = call c m in let (m2, ids) = run calls m1 in (m2, allocated s ++ ids)

-- The numbers from `k`, in order.
unfoldable pub numbers_from : ℕ → ℕ → List ℕ
numbers_from k zero = []
numbers_from k (suc n) = k ∷ numbers_from (suc k) n

-- Every session stands under its own number, which was allocated.
pub record IsValid (m : SessionManager) : Type 0 where
  pub own : (id : ℕ) (s : Session) → lookup id m.sessions ≡ some s → s.id ≡ id
  pub counted : (id : ℕ) (s : Session) → lookup id m.sessions ≡ some s → (1 ≤ id) × (id ≤ m.count)

-- What a call does: it allocates the next number, or none.
pub record Counts (m : SessionManager) (out : SessionManager × Option Session) : Type 0 where
  pub valid : IsValid out.0
  pub grows : out.0.count ≡ m.count + length (allocated out.1)
  pub next : allocated out.1 ≡ numbers_from (suc m.count) (length (allocated out.1))

pub unchanged : (m : SessionManager) → IsValid m → Counts m (m, none)
unfolding allocated numbers_from
unchanged m v = record { valid = v; grows = omega arith; next = refl }

pub emptied-Counts :
    (m : SessionManager) (sessions : List (ℕ × Session)) (closed : Bool)
    → IsValid m
    → ((id : ℕ) (s : Session) → lookup id sessions ≡ some s → lookup id m.sessions ≡ some s)
    → Counts m (record m { sessions = sessions; closed = closed }, none)
unfolding allocated numbers_from
emptied-Counts m sessions closed v sub = record {
  valid = record {
    own = λ id s e. v.own id s (sub id s e);
    counted = λ id s e. v.counted id s (sub id s e);
  };
  grows = omega arith;
  next = refl;
}

pub delete_sub :
    (m : SessionManager) (gone id : ℕ) (s : Session)
    → lookup id (delete gone m.sessions) ≡ some s
    → lookup id m.sessions ≡ some s
delete_sub m gone id s e = ground (arith, lookup-delete gone id m.sessions, e)

pub closed_call : (m : SessionManager) (c : Call) → m.closed ≡ true → call c m ≡ (m, none)
unfolding call allocate add remove close_session close_if_no_session close
closed_call m allocate_call e = simp e
closed_call m (add_call s) e = simp e
closed_call m (remove_call id) e = simp e
closed_call m (close_session_call s) e = simp e
closed_call m close_if_no_session_call e = simp e
closed_call m close_call e = simp e

pub run_closed : (m : SessionManager) (calls : List Call) → m.closed ≡ true → run calls m ≡ (m, [])
unfolding run allocated
run_closed m [] e = refl
run_closed m (c ∷ calls) e = simp (closed_call m c e, run_closed m calls e)

pub remove_open :
    (m : SessionManager) (id : ℕ)
    → m.closed ≡ false
    → remove m id ≡ record m { sessions = delete id m.sessions }
unfolding remove
remove_open m id e = simp e

pub allocate_open :
    (m : SessionManager)
    → m.closed ≡ false
    → suc m.count < 2 ^ 16
    → let s : Session = record { input = none; output = none; id = suc m.count } in
      allocate m
      ≡ (record m { count = suc m.count; sessions = insert (suc m.count) s m.sessions }, some s)
unfolding allocate
allocate_open m e h = simp (e, next)
  where
    next : (m.count + 1) % 2 ^ 16 ≡ suc m.count
    next = omega arith
