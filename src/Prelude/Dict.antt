-- ===== src/Prelude/Dict.antt =====
-- Go maps with integer keys, as association lists.
use gzv2ray_v.Prelude.{
  ℕ, ◌≡◌, ◌==◌, List, Option, ◌∷◌, if◌then◌else◌, length, some, none, arith, ◌≤◌, ◌<◌, ◌+◌, refl,
  [],
}

module _ {ℓ} {V : Type ℓ} where
  unfoldable pub lookup : ℕ → List (ℕ × V) → Option V
  lookup k [] = none
  lookup k ((j, v) ∷ m) = if j == k then some v else lookup k m

  unfoldable pub insert : ℕ → V → List (ℕ × V) → List (ℕ × V)
  insert key new [] = (key, new) ∷ []
  insert key new ((other, old) ∷ rest) =
      let inserted = insert key new rest in
      if other == key then (key, new) ∷ rest else (other, old) ∷ inserted

  unfoldable pub delete : ℕ → List (ℕ × V) → List (ℕ × V)
  delete k [] = []
  delete k ((j, w) ∷ m) = let rest = delete k m in if j == k then rest else (j, w) ∷ rest

  pub lookup-insert :
      (key asked : ℕ) (new : V) (dict : List (ℕ × V))
      → lookup asked (insert key new dict) ≡ (if key == asked then some new else lookup asked dict)
  unfolding lookup insert
  lookup-insert key asked new ((other, old) ∷ rest) =
      ground (arith, lookup-insert key asked new rest)
  lookup-insert key asked new [] = refl

  pub lookup-delete :
      (k j : ℕ) (m : List (ℕ × V)) → lookup j (delete k m) ≡ (if k == j then none else lookup j m)
  unfolding lookup delete
  lookup-delete k j [] = ground arith
  lookup-delete k j ((i, w) ∷ m) = ground (arith, lookup-delete k j m)

  pub length-delete-le : (k : ℕ) (m : List (ℕ × V)) → length (delete k m) ≤ length m
  unfolding delete
  length-delete-le k [] = omega arith
  length-delete-le k ((j, w) ∷ m) = ground (arith, length-delete-le k m)

  -- Deleting a key that is there makes the map smaller.
  pub length-delete-lt :
      (k : ℕ) (m : List (ℕ × V)) (v : V) → lookup k m ≡ some v → length (delete k m) < length m
  unfolding lookup delete
  length-delete-lt k [] v h = cc
  length-delete-lt k ((j, w) ∷ m) v h = ground (arith, length-delete-le k m, length-delete-lt k m v)

  pub length-insert :
      (k : ℕ) (v : V) (m : List (ℕ × V)) → lookup k m ≡ none → length (insert k v m) ≡ length m + 1
  unfolding lookup insert
  length-insert k v [] h = refl
  length-insert k v ((j, w) ∷ m) h = ground (arith, length-insert k v m)
