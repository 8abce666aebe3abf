-- ===== src/Cache/Lru/Implements/Fills.antt =====
-- The cache fills the interface Lru.
use gzv2ray_v.Cache.Lru.Implements.Calls.{new_lru-Holds}
use gzv2ray_v.Cache.Lru.Implements.Puts.{put-Answers, length-map}
use mathlib.Core.Path.{subst}
use gzv2ray_v.Cache.Lru.Implements.Moves.{
  held_in, key_in, value_of-find, key_of-find, use_key_miss, use_value_miss, get-Answers,
  get_key_from_value-Answers, use_key_hit, use_value_hit, not_held, not_keyed,
}
use gzv2ray_v.Prelude.{
  ℕ, false, some, refl, arith, [], ◌∷◌, List, map, ◌==◌, ◌≡◌, length, ◌≤◌, zero, suc, inl, inr,
  none, Option-cases, Option, ◌<◌, sym, ◌∙◌, ap, ◌↔◌, Bool-cases, take, ◌⊎◌,
}
use gzv2ray_v.Cache.Lru.{Lru, get, get_key_from_value, put, new_lru}
use gzv2ray_v.Cache.Lru.Elements.{Entry, find, find-own, find_sound}
use gzv2ray_v.Cache.Lru.Implements.{Holds, pair, by_key, by_held, Answers}
use gzv2ray_v.Cache.Lru.Recency.{value_of, key_of, drop_key, use_key, use_value, add}
use gzv2ray_v.Cache.Lru.Interface.{Operations, Same, IsLru}

abbrev pub lru_operations : Operations Lru
lru_operations = record { get = get; get_key_from_value = get_key_from_value; put = put }

-- A cache of this capacity that holds these pairs.
abbrev pub Shows : ℕ → Lru → List (ℕ × ℕ) → Type 0
Shows capacity l ps =
    (es : List Entry) × Holds l es
    × (map pair es ≡ ps)
    × (length es ≤ l.capacity)
    × (l.capacity ≡ capacity)

-- Taking out a pair leaves what is found under other keys and for other values.
value_of-drop_key :
    (k j : ℕ) (ps : List (ℕ × ℕ)) → (k == j) ≡ false → value_of j (drop_key k ps) ≡ value_of j ps
unfolding value_of drop_key
value_of-drop_key k j [] n = refl
value_of-drop_key k j ((i, v) ∷ ps) n = ground (arith, value_of-drop_key k j ps)

key_of-drop_key :
    (k v w : ℕ) (ps : List (ℕ × ℕ))
    → value_of k ps ≡ some v
    → (v == w) ≡ false
    → key_of w (drop_key k ps) ≡ key_of w ps
unfolding value_of key_of drop_key
key_of-drop_key k v w [] h n = refl
key_of-drop_key k v w ((i, x) ∷ ps) h n = ground (arith, key_of-drop_key k v w ps)

-- A pair in front again.
Same-front :
    (k v : ℕ) (ps : List (ℕ × ℕ))
    → value_of k ps ≡ some v
    → key_of v ps ≡ some k
    → Same ps ((k, v) ∷ drop_key k ps)
unfolding value_of key_of
Same-front k v ps h n = record {
  same_values = λ j. ground (arith, value_of-drop_key k j ps);
  same_keys = λ w. ground (arith, key_of-drop_key k v w ps);
}

Same-refl : (ps : List (ℕ × ℕ)) → Same ps ps
Same-refl ps = record { same_values = λ k. refl; same_keys = λ v. refl }

held_in-cases :
    (o : Option Entry) (x : ℕ) → held_in o ≡ some x → (e : Entry) × (o ≡ some e) × (e.held ≡ x)
held_in-cases none x h = absurd (cc h)
held_in-cases (some e) x h = (e, refl, cc h)

key_in-cases :
    (o : Option Entry) (k : ℕ) → key_in o ≡ some k → (e : Entry) × (o ≡ some e) × (e.key ≡ k)
key_in-cases none k h = absurd (cc h)
key_in-cases (some e) k h = (e, refl, cc h)

module _ (es : List Entry) (l : Lru) (v : Holds l es) where
  key_of-value : (k x : ℕ) → value_of k (map pair es) ≡ some x → key_of x (map pair es) ≡ some k
  key_of-value k x h =
      let (e, here, same) = held_in-cases (find by_key k es) x (sym (value_of-find k es) ∙ h) in
      ap (λ y. key_of y (map pair es)) (sym same)
      ∙ key_of-find e.held es
      ∙ ap key_in (find-own by_held by_key k es e here v.values)
      ∙ ap some (find_sound by_key k es e here)

  value_of-key : (k x : ℕ) → key_of x (map pair es) ≡ some k → value_of k (map pair es) ≡ some x
  value_of-key k x h =
      let (e, here, same) = key_in-cases (find by_held x es) k (sym (key_of-find x es) ∙ h) in
      ap (λ y. value_of y (map pair es)) (sym same)
      ∙ value_of-find e.key es
      ∙ ap held_in (find-own by_key by_held x es e here v.keys)
      ∙ ap some (find_sound by_held x es e here)

  use_key-Same :
      (k : ℕ)
      → ((use_key k (map pair es)).0 ≡ value_of k (map pair es))
        × Same (map pair es) (use_key k (map pair es)).1
  use_key-Same k = elim (Option-cases (value_of k (map pair es))) [
    | inl gone ↦ rw (use_key_miss k (map pair es) gone, gone) (refl, Same-refl (map pair es))
    | inr (x, here) ↦
        rw (use_key_hit k (map pair es) x here, here)
          (refl, Same-front k x (map pair es) here (key_of-value k x here))
  ]

  use_value-Same :
      (x : ℕ)
      → ((use_value x (map pair es)).0 ≡ key_of x (map pair es))
        × Same (map pair es) (use_value x (map pair es)).1
  use_value-Same x = elim (Option-cases (key_of x (map pair es))) [
    | inl gone ↦ rw (use_value_miss x (map pair es) gone, gone) (refl, Same-refl (map pair es))
    | inr (k, here) ↦
        rw (use_value_hit x (map pair es) k here, here)
          (refl, Same-front k x (map pair es) (value_of-key k x here) here)
  ]

-- What a call leaves is shown.
Answers-Shows :
    (capacity : ℕ) (out : Option ℕ × Lru) (said : Option ℕ × List (ℕ × ℕ))
    → Answers out said capacity
    → Shows capacity out.1 said.1
Answers-Shows capacity out said a =
    (a.entries, a.holds, a.shows, omega (arith, a.bounded, a.same_capacity), a.same_capacity)

value_of-added :
    (capacity k x : ℕ) (ps : List (ℕ × ℕ))
    → 0 < capacity
    → value_of k (add capacity k x ps) ≡ some x
unfolding value_of
value_of-added zero k x ps h = absurd (omega arith)
value_of-added (suc capacity) k x ps h = ground arith

value_of-take :
    (n j w : ℕ) (ps : List (ℕ × ℕ)) → value_of j (take n ps) ≡ some w → value_of j ps ≡ some w
unfolding value_of
value_of-take zero j w ps h = absurd (cc h)
value_of-take (suc n) j w [] h = h
value_of-take (suc n) j w ((k, v) ∷ ps) h = elim (Bool-cases (k == j)) [
  | inl same ↦ rw same (rw same at h)
  | inr other ↦ rw other (value_of-take n j w ps (rw other at h))
]

-- A pair that is there after another was added is that one or was there.
value_of-add :
    (capacity k x j w : ℕ) (ps : List (ℕ × ℕ))
    → value_of j (add capacity k x ps) ≡ some w
    → (w ≡ x) ⊎ (value_of j ps ≡ some w)
unfolding value_of
value_of-add capacity k x j w ps h =
    let all_ = value_of-take capacity j w ((k, x) ∷ ps) h in
    elim (Bool-cases (k == j)) [
      | inl same ↦ inl (let e = rw same at all_ in cc e)
      | inr other ↦ inr (rw other at all_)
    ]

module _ (capacity : ℕ) (l : Lru) (ps : List (ℕ × ℕ)) (shown : Shows capacity l ps) where
  -- What is said of the entries is said of the pairs shown.
  of_entries {κ} :
      (P : List (ℕ × ℕ) → ℕ → Type κ)
      → ((es : List Entry) → Holds l es → length es ≤ l.capacity → P (map pair es) l.capacity)
      → P ps capacity
  of_entries P f =
      let (es, v, e, r, c) = shown in subst (P ps) c (subst (λ q. P q l.capacity) e (f es v r))

  gets_lem :
      (k : ℕ)
      → ((get k l).0 ≡ value_of k ps)
        × ((qs : List (ℕ × ℕ)) × Shows capacity (get k l).1 qs × Same ps qs)
  gets_lem k =
      let a =
        of_entries (λ q m. Answers (get k l) (use_key k q) m) (λ es v r. get-Answers l es v r k) in
      let s =
        of_entries (λ q m. ((use_key k q).0 ≡ value_of k q) × Same q (use_key k q).1)
          (λ es v r. use_key-Same es l v k) in
      (a.answer ∙ s.0, ((use_key k ps).1, Answers-Shows capacity (get k l) (use_key k ps) a, s.1))

  gets_key_lem :
      (x : ℕ)
      → ((get_key_from_value x l).0 ≡ key_of x ps)
        × ((qs : List (ℕ × ℕ)) × Shows capacity (get_key_from_value x l).1 qs × Same ps qs)
  gets_key_lem x =
      let a =
        of_entries (λ q m. Answers (get_key_from_value x l) (use_value x q) m)
          (λ es v r. get_key_from_value-Answers l es v r x) in
      let s =
        of_entries (λ q m. ((use_value x q).0 ≡ key_of x q) × Same q (use_value x q).1)
          (λ es v r. use_value-Same es l v x) in
      (
        a.answer ∙ s.0,
        (
          (use_value x ps).1,
          Answers-Shows capacity (get_key_from_value x l) (use_value x ps) a,
          s.1,
        ),
      )

  puts_lem :
      (k x : ℕ)
      → value_of k ps ≡ none
      → key_of x ps ≡ none
      → 0 < capacity
      → (qs : List (ℕ × ℕ)) × Shows capacity (put k x l) qs
        × (value_of k qs ≡ some x)
        × ((j w : ℕ) → value_of j qs ≡ some w → (w ≡ x) ⊎ (value_of j ps ≡ some w))
  puts_lem k x new_key new_value pos =
      let a =
        of_entries
          (λ q m.
            value_of k q ≡ none
            → key_of x q ≡ none
            → Answers (none, put k x l) (none, add m k x q) m)
          (λ es v r n w.
            put-Answers l es v r k x (not_held (find by_key k es) (sym (value_of-find k es) ∙ n))
              (not_keyed (find by_held x es) (sym (key_of-find x es) ∙ w))) in
      (
        add capacity k x ps,
        Answers-Shows capacity (none, put k x l) (none, add capacity k x ps) (a new_key new_value),
        value_of-added capacity k x ps pos,
        λ j w h. value_of-add capacity k x j w ps h,
      )

  one_to_one_lem : (k x : ℕ) → (value_of k ps ≡ some x) ↔ (key_of x ps ≡ some k)
  one_to_one_lem k x =
      of_entries (λ q m. (value_of k q ≡ some x) ↔ (key_of x q ≡ some k))
        (λ es v r. (key_of-value es l v k x, value_of-key es l v k x))

  bounded_lem : length ps ≤ capacity
  bounded_lem = of_entries (λ q m. length q ≤ m) (λ es v r. omega (arith, r, length-map pair es))

-- The cache keeps the laws of its interface.
pub lru-IsLru : (capacity : ℕ) → IsLru lru_operations capacity (Shows capacity)
lru-IsLru capacity = record {
  bounded = λ l ps h. bounded_lem capacity l ps h;
  one_to_one = λ l ps k v h. one_to_one_lem capacity l ps h k v;
  gets = λ l ps k h. gets_lem capacity l ps h k;
  gets_key = λ l ps v h. gets_key_lem capacity l ps h v;
  puts = λ l ps k v h. puts_lem capacity l ps h k v;
}

pub new_lru-Shows : (capacity : ℕ) → Shows capacity (new_lru capacity) []
unfolding new_lru
new_lru-Shows capacity = ([], new_lru-Holds capacity, refl, omega arith, refl)
