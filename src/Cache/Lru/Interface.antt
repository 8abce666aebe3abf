-- ===== src/Cache/Lru/Interface.antt =====
-- common/cache/lru.go: the interface Lru, and what a user may rely on whose keys and values are
-- new when they are put. Which pair is used least is forgotten here.
use gzv2ray_v.Cache.Lru.Recency.{value_of, key_of}
use gzv2ray_v.Prelude.{ℕ, none, some, Option, List, ◌≡◌, length, ◌≤◌, ◌↔◌, ◌<◌, ◌⊎◌}

-- The interface `Lru`.
pub record Operations (S : Type 0) : Type 0 where
  pub get : ℕ → S → Option ℕ × S
  pub get_key_from_value : ℕ → S → Option ℕ × S
  pub put : ℕ → ℕ → S → S

-- The same pairs, in whatever order.
pub record Same (ps qs : List (ℕ × ℕ)) : Type 0 where
  pub same_values : (k : ℕ) → value_of k qs ≡ value_of k ps
  pub same_keys : (v : ℕ) → key_of v qs ≡ key_of v ps

-- The laws, for a state that holds so many pairs at most.
pub record IsLru {S : Type 0} (ops : Operations S) (capacity : ℕ)
    (Shows : S → List (ℕ × ℕ) → Type 0) : Type 0 where
  pub bounded : (s : S) (ps : List (ℕ × ℕ)) → Shows s ps → length ps ≤ capacity
  pub one_to_one :
      (s : S) (ps : List (ℕ × ℕ)) (k v : ℕ)
      → Shows s ps
      → (value_of k ps ≡ some v) ↔ (key_of v ps ≡ some k)
  pub gets :
      (s : S) (ps : List (ℕ × ℕ)) (k : ℕ)
      → Shows s ps
      → let (answer, s') = ops.get k s in
        (answer ≡ value_of k ps) × ((qs : List (ℕ × ℕ)) × Shows s' qs × Same ps qs)
  pub gets_key :
      (s : S) (ps : List (ℕ × ℕ)) (v : ℕ)
      → Shows s ps
      → let (answer, s') = ops.get_key_from_value v s in
        (answer ≡ key_of v ps) × ((qs : List (ℕ × ℕ)) × Shows s' qs × Same ps qs)
  pub puts :
      (s : S) (ps : List (ℕ × ℕ)) (k v : ℕ)
      → Shows s ps
      → value_of k ps ≡ none
      → key_of v ps ≡ none
      → 0 < capacity
      → (qs : List (ℕ × ℕ)) × Shows (ops.put k v s) qs
        × (value_of k qs ≡ some v)
        × ((j w : ℕ) → value_of j qs ≡ some w → (w ≡ v) ⊎ (value_of j ps ≡ some w))
