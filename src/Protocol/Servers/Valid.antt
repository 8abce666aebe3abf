-- ===== src/Protocol/Servers/Valid.antt =====
-- The picker loses no valid server, and finds one if there is one.
use gzv2ray_v.Prelude.{
  ℕ, zero, suc, none, some, refl, arith, [], ◌∷◌, Bool, if◌then◌else◌, List, ◌+◌, ◌≡◌, ◌<◌, length,
  set, ◌≤◌, ap, take, true, inl, inr, Bool-cases, Option-cases, Option, ◌-◌, ◌∙◌, leb, max,
  length-set, sym, length-take,
}
use gzv2ray_v.Protocol.Servers.{at, remove_server, get_loop, get_server, pick_server}

module _ {ℓ} {S : Type ℓ} (is_valid : S → Bool) where
  weight : S → ℕ
  weight s = if is_valid s then 1 else 0

  -- How many of the servers are valid.
  unfoldable pub count_valid : List S → ℕ
  unfolding weight
  count_valid [] = 0
  count_valid (s ∷ servers) = weight s + count_valid servers

  at_in : (i : ℕ) (servers : List S) (s : S) → at i servers ≡ some s → i < length servers
  at_in i [] s h = absurd (cc h)
  at_in zero (t ∷ servers) s h = omega arith
  at_in (suc i) (t ∷ servers) s h = omega (arith, at_in i servers s h)

  at-none : (i : ℕ) (servers : List S) → at i servers ≡ none → length servers ≤ i
  at-none i [] h = omega arith
  at-none zero (t ∷ servers) h = absurd (cc h)
  at-none (suc i) (t ∷ servers) h = omega (arith, at-none i servers h)

  count-set :
      (i : ℕ) (servers : List S) (s new : S)
      → at i servers ≡ some s
      → count_valid (set servers i new) + weight s ≡ count_valid servers + weight new
  unfolding count_valid
  count-set i [] s new h = absurd (cc h)
  count-set zero (t ∷ servers) s new h = omega (arith, ap weight (same h))
    where
      same : some t ≡ some s → t ≡ s
      same h = cc
  count-set (suc i) (t ∷ servers) s new h = omega (arith, count-set i servers s new h)

  count-take :
      (i : ℕ) (servers : List S) (last : S)
      → at i servers ≡ some last
      → suc i ≡ length servers
      → count_valid (take i servers) + weight last ≡ count_valid servers
  unfolding count_valid
  count-take i [] last h e = absurd (cc h)
  count-take zero (t ∷ []) last h e = omega (arith, ap weight (same h))
    where
      same : some t ≡ some last → t ≡ last
      same h = cc
  count-take zero (t ∷ (u ∷ servers)) last h e = absurd (omega arith)
  count-take (suc i) (t ∷ servers) last h e =
      omega (arith, count-take i servers last h (omega arith))

  at-set_last :
      (i j : ℕ) (servers : List S) (last : S)
      → at j servers ≡ some last
      → at j (set servers i last) ≡ some last
  at-set_last i j [] last h = h
  at-set_last zero zero (t ∷ servers) last h = refl
  at-set_last zero (suc j) (t ∷ servers) last h = h
  at-set_last (suc i) zero (t ∷ servers) last h = h
  at-set_last (suc i) (suc j) (t ∷ servers) last h = at-set_last i j servers last h

  at-some : (i : ℕ) (servers : List S) → i < length servers → (s : S) × (at i servers ≡ some s)
  at-some i [] h = absurd (omega arith)
  at-some zero (t ∷ servers) h = (t, refl)
  at-some (suc i) (t ∷ servers) h = at-some i servers (omega arith)

  remove_server-at :
      (servers : List S) (i : ℕ) (last : S)
      → at (length servers - 1) servers ≡ some last
      → remove_server servers i ≡ take (length servers - 1) (set servers i last)
  unfolding remove_server
  remove_server-at servers i last h = rw (h, remove_server)

  count-remove_server :
      (servers : List S) (i : ℕ) (s : S)
      → at i servers ≡ some s
      → (count_valid (remove_server servers i) + weight s ≡ count_valid servers)
        × (suc (length (remove_server servers i)) ≡ length servers)
  count-remove_server servers i s h =
      let l = at_in i servers s h in
      let n = length servers - 1 in
      let (last, e) = at-some n servers (omega arith) in
      let filled = set servers i last in
      let size = length-set servers i last in
      rw (remove_server-at servers i last e) (
        omega (
          arith,
          count-set i servers s last h,
          count-take n filled last (at-set_last i n servers last e) (omega (arith, size)),
        ),
        omega (arith, size, length-take n filled),
      )

  -- What `GetServer` has to do: it keeps the valid servers, and finds one at the index, or there
  -- is none there.
  pub record Gets (servers : List S) (i : ℕ) (out : List S × Option S) : Type ℓ where
    pub kept : count_valid out.0 ≡ count_valid servers
    pub found : (s : S) → out.1 ≡ some s → (is_valid s ≡ true) × (at i out.0 ≡ some s)
    pub missed : out.1 ≡ none → length out.0 ≤ i

  get_loop-none :
      (fuel : ℕ) (servers : List S) (i : ℕ)
      → at i servers ≡ none
      → get_loop is_valid (suc fuel) servers i ≡ (servers, none)
  unfolding get_loop
  get_loop-none fuel servers i h = rw (h, get_loop)

  get_loop-some :
      (fuel : ℕ) (servers : List S) (i : ℕ) (s : S)
      → at i servers ≡ some s
      → get_loop is_valid (suc fuel) servers i ≡ (
          if is_valid s
          then (servers, some s)
          else get_loop is_valid fuel (remove_server servers i) i)
  unfolding get_loop
  get_loop-some fuel servers i s h = rw (h, get_loop)

  get_loop-Gets :
      (fuel : ℕ) (servers : List S) (i : ℕ)
      → length servers < fuel
      → Gets servers i (get_loop is_valid fuel servers i)
  unfolding weight
  get_loop-Gets zero servers i h = absurd (omega arith)
  get_loop-Gets (suc fuel) servers i h = elim (Option-cases (at i servers)) [
    | inl e ↦
        rw (get_loop-none fuel servers i e)
          (record { kept = refl; found = λ s k. absurd (cc k); missed = λ k. at-none i servers e })
    | inr (s, e) ↦ elim (Bool-cases (is_valid s)) [
      | inl t ↦
          rw (get_loop-some fuel servers i s e, t)
            (record {
              kept = refl;
              found = λ s' k. (ap is_valid (of_some s s' k) ∙ t, e ∙ k);
              missed = λ k. absurd (cc k);
            })
      | inr t ↦
          let c = count-remove_server servers i s e in
          let r = get_loop-Gets fuel (remove_server servers i) i (omega (arith, c.1)) in
          rw (get_loop-some fuel servers i s e, t)
            (record { kept = ground (arith, r.kept, c.0, t); found = r.found; missed = r.missed })
    ]
  ]
    where
      of_some : (s s' : S) → some s ≡ some s' → s' ≡ s
      of_some s s' k = cc

  get_server-Gets : (servers : List S) (i : ℕ) → Gets servers i (get_server is_valid servers i)
  unfolding get_server
  get_server-Gets servers i = get_loop-Gets (suc (length servers)) servers i (omega arith)

  pick_server_found :
      (servers : List S) (next : ℕ) (s : S)
      → (get_server is_valid servers next).1 ≡ some s
      → let servers1 = (get_server is_valid servers next).0 in
        pick_server is_valid servers next
        ≡ (servers1, (if leb (length servers1) (next + 1) then 0 else next + 1), some s)
  unfolding pick_server
  pick_server_found servers next s e = rw (e, pick_server)

  pick_server_missed :
      (servers : List S) (next : ℕ)
      → (get_server is_valid servers next).1 ≡ none
      → let (servers2, found2) = get_server is_valid (get_server is_valid servers next).0 0 in
        pick_server is_valid servers next
        ≡ (servers2, (if leb (length servers2) 1 then 0 else 1), found2)
  unfolding pick_server
  pick_server_missed servers next e = rw (e, pick_server)

  -- What `PickServer` has to do.
  pub record Picks (servers : List S) (out : List S × ℕ × Option S) : Type ℓ where
    pub kept : count_valid out.0 ≡ count_valid servers
    pub good : (s : S) → out.2 ≡ some s → is_valid s ≡ true
    pub missed : out.2 ≡ none → count_valid servers ≡ 0
    pub in_range : out.1 < max 1 (length out.0)

  count_none : (servers : List S) → length servers ≤ 0 → count_valid servers ≡ 0
  unfolding count_valid
  count_none [] h = refl
  count_none (s ∷ servers) h = absurd (omega arith)

  -- `PickServer`, from whatever next index: what it picks is valid, and it picks one if the list
  -- has a valid server; the list keeps as many valid servers as it had; and the next index is in
  -- the list, or 0.
  pub pick_server-Picks :
      (servers : List S) (next : ℕ) → Picks servers (pick_server is_valid servers next)
  pick_server-Picks servers next =
      let g = get_server-Gets servers next in
      let g2 = get_server-Gets (get_server is_valid servers next).0 0 in
      elim (Option-cases (get_server is_valid servers next).1) [
        | inl e ↦ rw (pick_server_missed servers next e) (record {
          kept = g2.kept ∙ g.kept;
          good = λ s k. (g2.found s k).0;
          missed = λ k. sym (g2.kept ∙ g.kept) ∙ count_none _ (g2.missed k);
          in_range = ground arith;
        })
        | inr (s, e) ↦ rw (pick_server_found servers next s e) (record {
          kept = g.kept;
          good = λ s' k. (g.found s' (e ∙ k)).0;
          missed = λ k. absurd (cc k);
          in_range = ground arith;
        })
      ]
