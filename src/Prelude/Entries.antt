-- ===== src/Prelude/Entries.antt =====
-- Lists by their entries.
use gzv2ray_v.Prelude.{
  ℕ, zero, suc, refl, arith, [], ◌∷◌, List, ◌<◌, length, All, get_or, ◌≡◌, set, take, ◌++◌, ap₂,
  if◌then◌else◌, ◌==◌,
}

module _ {ℓ} {A : Type ℓ} where
  pub get_or-set :
      (xs : List A) (i j : ℕ) (v d : A)
      → i < length xs
      → get_or (set xs i v) j d ≡ (if i == j then v else get_or xs j d)
  get_or-set [] i j v d h = absurd (omega arith)
  get_or-set (x ∷ xs) zero zero v d h = refl
  get_or-set (x ∷ xs) zero (suc j) v d h = ground arith
  get_or-set (x ∷ xs) (suc i) zero v d h = ground arith
  get_or-set (x ∷ xs) (suc i) (suc j) v d h = ground (arith, get_or-set xs i j v d)

  pub get_or-take :
      (n : ℕ) (xs : List A) (i : ℕ) (d : A) → i < n → get_or (take n xs) i d ≡ get_or xs i d
  get_or-take zero xs i d h = absurd (omega arith)
  get_or-take (suc n) [] i d h = refl
  get_or-take (suc n) (x ∷ xs) zero d h = refl
  get_or-take (suc n) (x ∷ xs) (suc i) d h = get_or-take n xs i d (omega arith)

  pub get_or-append :
      (xs ys : List A) (i : ℕ) (d : A) → i < length xs → get_or (xs ++ ys) i d ≡ get_or xs i d
  get_or-append [] ys i d h = absurd (omega arith)
  get_or-append (x ∷ xs) ys zero d h = refl
  get_or-append (x ∷ xs) ys (suc i) d h = get_or-append xs ys i d (omega arith)

  pub same_entries :
      (xs ys : List A) (d : A)
      → length xs ≡ length ys
      → ((i : ℕ) → i < length xs → get_or xs i d ≡ get_or ys i d)
      → xs ≡ ys
  same_entries [] [] d l h = refl
  same_entries [] (y ∷ ys) d l h = absurd (omega (arith, l))
  same_entries (x ∷ xs) [] d l h = absurd (omega (arith, l))
  same_entries (x ∷ xs) (y ∷ ys) d l h =
      ap₂ ◌∷◌ (h 0 (omega arith))
        (same_entries xs ys d (omega (arith, l)) (λ i p. h (suc i) (omega (arith, p))))

  pub All-get_or {κ} :
      (P : A → Type κ) (xs : List A) (i : ℕ) (d : A) → All P xs → i < length xs → P (get_or xs i d)
  All-get_or P [] i d a h = absurd (omega arith)
  All-get_or P (x ∷ xs) zero d a h = a.0
  All-get_or P (x ∷ xs) (suc i) d a h = All-get_or P xs i d a.1 (omega arith)

  pub from_entries {κ} :
      (P : A → Type κ) (xs : List A) (d : A)
      → ((i : ℕ) → i < length xs → P (get_or xs i d))
      → All P xs
  from_entries P [] d h = tt
  from_entries P (x ∷ xs) d h =
      (h 0 (omega arith), from_entries P xs d (λ i p. h (suc i) (omega (arith, p))))
