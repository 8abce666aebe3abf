-- ===== src/Dns/Fakedns/Finds.antt =====
-- The loop finds a free address, since the cache holds fewer pairs than the pool has addresses.
use native.Mathlib.Decide.{dec_lt}
use gzv2ray_v.Dns.Fakedns.{Holder, contains, find_free, following}
use gzv2ray_v.Cache.Lru.Interface.{Operations, IsLru, Same}
use gzv2ray_v.Cache.Lru.Recency.{key_of, value_of}
use gzv2ray_v.Prelude.{
  ℕ, zero, suc, false, inl, inr, none, some, refl, arith, [], Bool-cases, ◌∷◌, List, if◌then◌else◌,
  ◌≢◌, ◌==◌, ◌≤◌, ◌<◌, Option, ◌≡◌, ◌⊎◌, length, ◌+◌, ltb, ap, sym, ◌∙◌, Option-cases,
}

-- Without the first pair that has the value.
drop_value : ℕ → List (ℕ × ℕ) → List (ℕ × ℕ)
drop_value v [] = []
drop_value v ((k, w) ∷ ps) = let rest = drop_value v ps in if w == v then ps else (k, w) ∷ rest

length-drop_value :
    (v : ℕ) (ps : List (ℕ × ℕ)) → (key_of v ps ≢ none) → suc (length (drop_value v ps)) ≡ length ps
unfolding drop_value key_of
length-drop_value v [] h = absurd (h refl)
length-drop_value v ((k, w) ∷ ps) h = elim (Bool-cases (w == v)) [
  | inl same ↦ rw same refl
  | inr other ↦ rw other (ap suc (length-drop_value v ps (rw other at h)))
]

key_of-drop_value :
    (v w : ℕ) (ps : List (ℕ × ℕ)) → (v == w) ≡ false → key_of w (drop_value v ps) ≡ key_of w ps
unfolding drop_value key_of
key_of-drop_value v w [] h = refl
key_of-drop_value v w ((k, x) ∷ ps) h = ground (arith, key_of-drop_value v w ps)

-- As many values in a row take as many pairs.
pigeonhole :
    (n base : ℕ) (ps : List (ℕ × ℕ))
    → ((v : ℕ) → base ≤ v → v < base + n → key_of v ps ≢ none)
    → n ≤ length ps
pigeonhole zero base ps h = omega arith
pigeonhole (suc n) base ps h =
    let rest = pigeonhole n base (drop_value (base + n) ps) (λ v p q e.
      h v p (omega (arith, q)) (sym (key_of-drop_value (base + n) v ps (ground (arith, q))) ∙ e)) in
    omega (arith, rest, length-drop_value (base + n) ps (h (base + n) (omega arith) (omega arith)))

module _ {S : Type 0} (lru : Operations S) (capacity : ℕ) (Shows : S → List (ℕ × ℕ) → Type 0)
    (law : IsLru lru capacity Shows) where
  -- The cache holds pairs, fewer than the pool has addresses, and the next address is in the pool.
  pub record IsValid (h : Holder S) (ps : List (ℕ × ℕ)) : Type 0 where
    pub shown : Shows h.domain_to_ip ps
    pub some_room : 0 < capacity
    pub fewer : capacity < h.size
    pub from_base : h.base ≤ h.next_ip
    pub in_pool : h.next_ip < h.base + h.size
    pub all_in_pool :
        (domain ip : ℕ) → value_of domain ps ≡ some ip → (h.base ≤ ip) × (ip < h.base + h.size)

  -- The loop has found a free address, and the cache has the pairs that it had.
  pub record Found (h : Holder S) (ps : List (ℕ × ℕ)) (out : Option ℕ × Holder S) : Type 0 where
    pub ip : ℕ
    pub answer : out.0 ≡ some ip
    pub free : key_of ip ps ≡ none
    pub inside : (h.base ≤ ip) × (ip < h.base + h.size)
    pub pairs : List (ℕ × ℕ)
    pub same : Same ps pairs
    pub valid : IsValid out.1 pairs
    pub same_pool : (out.1.base ≡ h.base) × (out.1.size ≡ h.size)

  -- The loop has found that every address it came by is in use.
  record Covers (h : Holder S) (ps : List (ℕ × ℕ)) (fuel : ℕ) : Type 0 where
    on : (a : ℕ) → h.next_ip ≤ a → a < h.base + h.size → a < h.next_ip + fuel → key_of a ps ≢ none
    round :
        (a : ℕ)
        → h.base ≤ a
        → a < h.base + h.size
        → a + h.size < h.next_ip + fuel
        → key_of a ps ≢ none

  following-pool :
      (h : Holder S) (ps : List (ℕ × ℕ))
      → IsValid h ps
      → following lru h ≡ (if ltb (h.next_ip + 1) (h.base + h.size) then h.next_ip + 1 else h.base)
  unfolding contains
  following-pool h ps v = ground (arith, v.from_base)

  step_in :
      (h : Holder S) (ps : List (ℕ × ℕ))
      → IsValid h ps
      → (h.base ≤ following lru h) × (following lru h < h.base + h.size)
  step_in h ps v = ground (arith, following-pool h ps v, v.from_base, v.in_pool)

  stepped : Holder S → S → Holder S
  stepped h s = record h { domain_to_ip = s; next_ip = following lru h }

  stepped-IsValid :
      (h : Holder S) (ps qs : List (ℕ × ℕ)) (s : S)
      → IsValid h ps
      → Shows s qs
      → Same ps qs
      → IsValid (stepped h s) qs
  unfolding stepped
  stepped-IsValid h ps qs s v shown same = record {
    all_in_pool = λ d a e. v.all_in_pool d a (sym (same.same_values d) ∙ e);
    shown = shown;
    some_room = v.some_room;
    fewer = v.fewer;
    from_base = (step_in h ps v).0;
    in_pool = (step_in h ps v).1;
  }

  find_free-hit :
      (fuel : ℕ) (h : Holder S) (d : ℕ)
      → (lru.get_key_from_value h.next_ip h.domain_to_ip).0 ≡ some d
      → find_free lru (suc fuel) h
        ≡ find_free lru fuel (stepped h (lru.get_key_from_value h.next_ip h.domain_to_ip).1)
  unfolding find_free stepped
  find_free-hit fuel h d e = rw (e, find_free) refl

  find_free-miss :
      (fuel : ℕ) (h : Holder S)
      → (lru.get_key_from_value h.next_ip h.domain_to_ip).0 ≡ none
      → find_free lru (suc fuel) h
        ≡ (some h.next_ip, stepped h (lru.get_key_from_value h.next_ip h.domain_to_ip).1)
  unfolding find_free stepped
  find_free-miss fuel h e = rw (e, find_free) refl

  -- One round more covers the address that it came by.
  one_round_more :
      (fuel : ℕ) (h : Holder S) (ps qs : List (ℕ × ℕ)) (s : S)
      → IsValid h ps
      → key_of h.next_ip ps ≢ none
      → Same ps qs
      → Covers (stepped h s) qs fuel
      → Covers h ps (suc fuel)
  unfolding stepped
  one_round_more fuel h ps qs s v used same c = record {
    on = λ a p q r e. elim (dec_lt h.next_ip a) [
      | no n ↦ used (ap (λ b. key_of b ps) {x = h.next_ip} {y = a} (omega (arith, p)) ∙ e)
      | yes l ↦
          c.on a (ground (arith, following-pool h ps v, l, q)) q
            (ground (arith, following-pool h ps v, l, q, r)) (same.same_keys a ∙ e)
    ];
    round = λ a p q r e. elim (dec_lt (h.next_ip + 1) (h.base + h.size)) [
      | yes l ↦ c.round a p q (ground (arith, following-pool h ps v, l, r)) (same.same_keys a ∙ e)
      | no n ↦
          c.on a (ground (arith, following-pool h ps v, n, p)) q
            (ground (arith, following-pool h ps v, n, r, v.in_pool)) (same.same_keys a ∙ e)
    ];
  }

  -- What a later round has found, from before.
  later :
      (h : Holder S) (ps qs : List (ℕ × ℕ)) (s : S) (out : Option ℕ × Holder S)
      → Same ps qs
      → Found (stepped h s) qs out
      → Found h ps out
  unfolding stepped
  later h ps qs s out same f = record {
    ip = f.ip;
    answer = f.answer;
    free = sym (same.same_keys f.ip) ∙ f.free;
    inside = f.inside;
    pairs = f.pairs;
    same = record {
      same_values = λ k. f.same.same_values k ∙ same.same_values k;
      same_keys = λ w. f.same.same_keys w ∙ same.same_keys w;
    };
    valid = f.valid;
    same_pool = f.same_pool;
  }

  find_free-cases :
      (fuel : ℕ) (h : Holder S) (ps : List (ℕ × ℕ))
      → IsValid h ps
      → Found h ps (find_free lru fuel h) ⊎ Covers h ps fuel
  find_free-cases zero h ps v = inr (record {
    on = λ a p q r. omega (arith, p, r);
    round = λ a p q r. omega (arith, q, r, v.in_pool);
  })
  find_free-cases (suc fuel) h ps v =
      let s = (lru.get_key_from_value h.next_ip h.domain_to_ip).1 in
      let (answer, (qs, shown, same)) = law.gets_key h.domain_to_ip ps h.next_ip v.shown in
      elim (Option-cases (key_of h.next_ip ps)) [
        | inl free ↦ inl (
            rw (find_free-miss fuel h (answer ∙ free)) (record {
              ip = h.next_ip;
              answer = refl;
              free = free;
              inside = (v.from_base, v.in_pool);
              pairs = qs;
              same = same;
              valid = stepped-IsValid h ps qs s v shown same;
              same_pool = unfold stepped in (refl, refl);
            }))
        | inr (d, used) ↦
            rw (find_free-hit fuel h d (answer ∙ used))
              (elim (find_free-cases fuel (stepped h s) qs
                (stepped-IsValid h ps qs s v shown same)) [
                  | inl f ↦ inl (later h ps qs s (find_free lru fuel (stepped h s)) same f)
                  | inr c ↦ inr (one_round_more fuel h ps qs s v (λ e. cc (e, used)) same c)
                ])
      ]

  -- Enough rounds for the pool: the loop ends at a free address, and the cache has the pairs that
  -- it had.
  pub find_free-Found :
      (h : Holder S) (ps : List (ℕ × ℕ)) → IsValid h ps → Found h ps (find_free lru h.size h)
  find_free-Found h ps v = elim (find_free-cases h.size h ps v) [
    | inl f ↦ f
    | inr c ↦ absurd (
        omega (
          arith,
          law.bounded h.domain_to_ip ps v.shown,
          v.fewer,
          pigeonhole h.size h.base ps (λ a p q. elim (dec_lt a h.next_ip) [
            | yes l ↦ c.round a p q (omega (arith, l))
            | no n ↦ c.on a (omega arith) q (omega (arith, q, v.from_base))
          ]),
        ))
  ]
