-- ===== src/Mux/Session/Numbers.antt =====
-- The numbers of the sessions that a client allocates.
use gzv2ray_v.Prelude.{
  All, ℕ, zero, suc, true, false, inl, inr, none, some, refl, arith, [], Bool-cases, ◌∷◌, List, ◌≢◌,
  ◌≡◌, ◌+◌, ◌++◌, ◌⊎◌, length, ap, ◌==◌, ◌∙◌, ◌<◌, sym, ◌^◌, ==_iff, length-append, ap₂,
}
use gzv2ray_v.Prelude.Dict.{lookup, insert, delete, lookup-insert}
use gzv2ray_v.Mux.Session.{
  Session, SessionManager, allocate, remove, close_if_no_session, close, close_session,
}
use gzv2ray_v.Mux.Session.Calls.{
  Call, IsClientCall, add_call, allocate_call, remove_call, close_session_call,
  close_if_no_session_call, close_call, call, allocated, run, numbers_from, IsValid, Counts,
  unchanged, emptied-Counts, delete_sub, closed_call, remove_open, allocate_open,
}

inserted :
    (id k : ℕ) (s t : Session) (sessions : List (ℕ × Session))
    → lookup id (insert k s sessions) ≡ some t
    → ((id ≡ k) × (t ≡ s)) ⊎ (lookup id sessions ≡ some t)
inserted id k s t sessions h = elim (Bool-cases (k == id)) [
  | inl e ↦ inl (sym ((==_iff k id).0 e), same (rw (lookup-insert k id s sessions, e) at h))
  | inr e ↦ inr (rw (lookup-insert k id s sessions, e) at h)
]
  where
    same : some s ≡ some t → t ≡ s
    same h = cc

nothing : (id : ℕ) (s : Session) → lookup id [] ≢ some s
unfolding lookup
nothing id s h = cc h

close_if_empty :
    (m : SessionManager)
    → m.closed ≡ false
    → (length m.sessions == 0) ≡ true
    → (close_if_no_session m).0 ≡ record m { closed = true }
unfolding close_if_no_session
close_if_empty m o e = simp (o, e)

close_if_used :
    (m : SessionManager)
    → m.closed ≡ false
    → (length m.sessions == 0) ≡ false
    → (close_if_no_session m).0 ≡ m
unfolding close_if_no_session
close_if_used m o e = simp (o, e)

close_open :
    (m : SessionManager)
    → m.closed ≡ false
    → (close m).0 ≡ record m { closed = true; sessions = [] }
unfolding close
close_open m o = simp o

allocated-Counts :
    (m : SessionManager) (s : Session)
    → IsValid m
    → s.id ≡ suc m.count
    → Counts m
        (record m { count = suc m.count; sessions = insert (suc m.count) s m.sessions }, some s)
unfolding allocated numbers_from
allocated-Counts m s v e = record {
  valid = record {
    own = λ id t h. elim (inserted id (suc m.count) s t m.sessions h) [
      | inl (here, same) ↦ ap (λ x. x.id) same ∙ e ∙ sym here
      | inr old ↦ v.own id t old
    ];
    counted = λ id t h. elim (inserted id (suc m.count) s t m.sessions h) [
      | inl (here, same) ↦ (omega arith, omega arith)
      | inr old ↦ (omega (arith, v.counted id t old), omega (arith, v.counted id t old))
    ];
  };
  grows = omega arith;
  next = ap (λ n. n ∷ []) e;
}

length-allocate : (m : SessionManager) → m.closed ≡ false → length (allocated (allocate m).1) ≡ 1
unfolding allocate allocated
length-allocate m o = simp o

allocate-Counts :
    (m : SessionManager)
    → IsValid m
    → m.closed ≡ false
    → m.count + length (allocated (allocate m).1) < 2 ^ 16
    → Counts m (allocate m)
allocate-Counts m v o h =
    rw (allocate_open m o (omega (arith, length-allocate m o, h))) (allocated-Counts m _ v refl)

module _ (m : SessionManager) (v : IsValid m) (o : m.closed ≡ false) where
  removed-Counts : (id : ℕ) → Counts m (remove m id, none)
  removed-Counts id =
      rw (remove_open m id o) (emptied-Counts m (delete id m.sessions) m.closed v (delete_sub m id))

  close_if_no_session-Counts : Counts m ((close_if_no_session m).0, none)
  close_if_no_session-Counts = elim (Bool-cases (length m.sessions == 0)) [
    | inl e ↦ rw (close_if_empty m o e) (emptied-Counts m m.sessions true v (λ id s h. h))
    | inr e ↦ rw (close_if_used m o e) (unchanged m v)
  ]

  close-Counts : Counts m ((close m).0, none)
  close-Counts =
      rw (close_open m o) (emptied-Counts m [] true v (λ id s h. absurd (nothing id s h)))

  open_call-Counts :
      (c : Call)
      → IsClientCall c
      → m.count + length (allocated (call c m).1) < 2 ^ 16
      → Counts m (call c m)
  unfolding call close_session
  open_call-Counts allocate_call k h = allocate-Counts m v o h
  open_call-Counts (add_call s) k h = absurd k
  open_call-Counts (remove_call id) k h = removed-Counts id
  open_call-Counts (close_session_call s) k h = removed-Counts s.id
  open_call-Counts close_if_no_session_call k h = close_if_no_session-Counts
  open_call-Counts close_call k h = close-Counts

call-Counts :
    (m : SessionManager) (c : Call)
    → IsClientCall c
    → IsValid m
    → m.count + length (allocated (call c m).1) < 2 ^ 16
    → Counts m (call c m)
call-Counts m c k v h = elim (Bool-cases m.closed) [
  | inl e ↦ rw (closed_call m c e) (unchanged m v)
  | inr e ↦ open_call-Counts m v e c k h
]

numbers_from-append :
    (k a b : ℕ) → numbers_from k a ++ numbers_from (k + a) b ≡ numbers_from k (a + b)
unfolding numbers_from
numbers_from-append k zero b =
    ap (λ j. numbers_from j b) {x = k + 0} {y = k} (omega arith)
    ∙ ap (numbers_from k) {x = b} {y = 0 + b} (omega arith)
numbers_from-append k (suc a) b =
    ap (λ j. k ∷ (numbers_from (suc k) a ++ numbers_from j b)) {x = k + suc a} {y = suc k + a}
      (omega arith)
    ∙ ap (λ t. k ∷ t) (numbers_from-append (suc k) a b)
    ∙ ap (numbers_from k) {x = suc (a + b)} {y = suc a + b} (omega arith)

-- From a valid manager, the numbers that any calls of a client in a row (every call but `Add`)
-- allocate are those behind its counter, in order and none twice, as long as the counter does not
-- reach 2^16; every session then stands under its own number, which the counter has passed.
pub run-numbers :
    (calls : List Call) (m : SessionManager)
    → All IsClientCall calls
    → IsValid m
    → m.count + length (run calls m).1 < 2 ^ 16
    → let (m', ids) = run calls m in
      IsValid m'
      × (m'.count ≡ m.count + length ids)
      × (ids ≡ numbers_from (suc m.count) (length ids))
unfolding run numbers_from
run-numbers [] m k v h = (v, omega arith, refl)
run-numbers (c ∷ calls) m k v h =
    let new = allocated (call c m).1 in
    let rest = (run calls (call c m).0).1 in
    let sum = length-append new rest in
    let g = call-Counts m c k.0 v (omega (arith, sum, h)) in
    let (v', counted, ids) =
      run-numbers calls (call c m).0 k.1 g.valid (omega (arith, sum, g.grows, h)) in
    (
      v',
      omega (arith, sum, counted, g.grows),
      ap₂ ◌++◌ g.next ids
          ∙ ap (λ k. numbers_from (suc m.count) (length new) ++ numbers_from k (length rest))
              {x = suc (call c m).0.count} {y = suc m.count + length new} (omega (arith, g.grows))
          ∙ numbers_from-append (suc m.count) (length new) (length rest)
          ∙ ap (numbers_from (suc m.count)) (sym sum),
    )
