-- ===== src/Buf.antt =====
-- common/buf/multi_buffer.go: a list of buffers, each given by its unread bytes.
mod Tests
use gzv2ray_v.Prelude.{
  ℕ, ◌≡◌, true, inl, inr, refl, arith, [], Bool-cases, ◌∷◌, List, Bool, ◌++◌, length, ◌-◌,
  append_assoc, ◌==◌, take, drop, ◌&&◌, if◌then◌else◌, nil_of_length, ◌≤◌, ==_iff, length-append,
  sym, length-take, append-nil, ◌∙◌, take-append-drop, ap,
}

abbrev pub MultiBuffer : Type 0
MultiBuffer = List (List ℕ)

unfoldable pub is_empty : MultiBuffer → Bool
is_empty [] = true
is_empty (b ∷ mb) = length b == 0 && is_empty mb

-- `SplitBytes` into a slice of `n` bytes: what stays, and the bytes that were copied. A buffer that
-- the copy empties is released; the first one that it does not empty ends the loop.
unfoldable pub split_bytes : MultiBuffer → ℕ → MultiBuffer × List ℕ
split_bytes [] n = ([], [])
split_bytes (b ∷ mb) n =
    let rest = split_bytes mb (n - length (take n b)) in
    if length (drop n b) == 0 then (rest.0, take n b ++ rest.1) else (drop n b ∷ mb, take n b)

-- All bytes, in order.
unfoldable pub bytes : MultiBuffer → List ℕ
bytes [] = []
bytes (b ∷ mb) = b ++ bytes mb

pub bytes-append : (xs ys : MultiBuffer) → bytes (xs ++ ys) ≡ bytes xs ++ bytes ys
unfolding bytes
bytes-append [] ys = refl
bytes-append (x ∷ xs) ys = simp (bytes-append xs ys, append_assoc)

pub bytes_of_is_empty : (mb : MultiBuffer) → is_empty mb ≡ true → bytes mb ≡ []
unfolding bytes is_empty
bytes_of_is_empty [] h = refl
bytes_of_is_empty ([] ∷ mb) h = bytes_of_is_empty mb h
bytes_of_is_empty ((x ∷ b) ∷ mb) h = ground arith

-- Splitting loses no byte and keeps the order: what was copied, followed by what stays.
pub bytes-split_bytes :
    (mb : MultiBuffer) (n : ℕ) → (split_bytes mb n).1 ++ bytes (split_bytes mb n).0 ≡ bytes mb
unfolding bytes split_bytes
bytes-split_bytes [] n = refl
bytes-split_bytes (b ∷ mb) n = elim (Bool-cases (length (drop n b) == 0)) [
  | inl e ↦
      let gone = nil_of_length (drop n b) ((==_iff _ _).0 e) in
      let whole : take n b ≡ b = sym (append-nil (take n b)) ∙ rw gone at (take-append-drop n b) in
      rw e (
        simp (append_assoc, bytes-split_bytes mb (n - length (take n b)))
          (ap (λ t. t ++ bytes mb) whole))
  | inr e ↦ rw e (
      sym (append_assoc (take n b) (drop n b) (bytes mb))
      ∙ ap (λ t. t ++ bytes mb) (take-append-drop n b))
]

-- At most `n` bytes are copied.
pub length-split_bytes-le : (mb : MultiBuffer) (n : ℕ) → length (split_bytes mb n).1 ≤ n
unfolding split_bytes
length-split_bytes-le [] n = omega arith
length-split_bytes-le (b ∷ mb) n = elim (Bool-cases (length (drop n b) == 0)) [
  | inl e ↦ rw e (
      omega (
        arith,
        length-append (take n b) (split_bytes mb (n - length (take n b))).1,
        length-take n b,
        length-split_bytes-le mb (n - length (take n b)),
      ))
  | inr e ↦ rw e (omega (arith, length-take n b))
]
