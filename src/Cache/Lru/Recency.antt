-- ===== src/Cache/Lru/Recency.antt =====
-- What a cache of least recent use promises: a list of at most so many keys with their values, the
-- most recently used first.
use gzv2ray_v.Prelude.{ℕ, none, some, [], ◌∷◌, List, Option, if◌then◌else◌, take, ◌==◌}

unfoldable pub value_of : ℕ → List (ℕ × ℕ) → Option ℕ
value_of k [] = none
value_of k ((j, v) ∷ ps) = let rest = value_of k ps in if j == k then some v else rest

unfoldable pub key_of : ℕ → List (ℕ × ℕ) → Option ℕ
key_of v [] = none
key_of v ((k, w) ∷ ps) = let rest = key_of v ps in if w == v then some k else rest

unfoldable pub drop_key : ℕ → List (ℕ × ℕ) → List (ℕ × ℕ)
drop_key k [] = []
drop_key k ((j, v) ∷ ps) = let rest = drop_key k ps in if j == k then ps else (j, v) ∷ rest

-- A pair that is found goes to the front.
abbrev pub use_key : ℕ → List (ℕ × ℕ) → Option ℕ × List (ℕ × ℕ)
use_key k ps = elim (value_of k ps) [
  | none ↦ (none, ps)
  | some v ↦ (some v, (k, v) ∷ drop_key k ps)
]

abbrev pub use_value : ℕ → List (ℕ × ℕ) → Option ℕ × List (ℕ × ℕ)
use_value v ps = elim (key_of v ps) [
  | none ↦ (none, ps)
  | some k ↦ (some k, (k, v) ∷ drop_key k ps)
]

-- A new pair goes to the front, and the least recently used one is forgotten if there are too many.
abbrev pub add : ℕ → ℕ → ℕ → List (ℕ × ℕ) → List (ℕ × ℕ)
add capacity k v ps = take capacity ((k, v) ∷ ps)
