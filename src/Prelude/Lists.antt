-- ===== src/Prelude/Lists.antt =====
-- Lists measured and indexed by native numbers, under the library's names.
use Prim.Native.Nat.{ℕ, zero, suc, ◌+◌, ◌-◌, ◌≤◌, ◌<◌, min}
use mathlib.Core.Path.{◌≡◌, refl, ap, ◌∙◌, subst}
use mathlib.Core.Logic.{◌⊎◌, inl, inr}
use mathlib.Core.List.{List, [], ◌∷◌, ◌++◌}
use native.Mathlib.Omega.{arith}

module _ {ℓ} {A : Type ℓ} where
  abbrev pub get_or : List A → ℕ → A → A
  get_or [] i d = d
  get_or (x ∷ xs) zero d = x
  get_or (x ∷ xs) (suc i) d = get_or xs i d

  -- A write out of bounds changes nothing.
  abbrev pub set : List A → ℕ → A → List A
  set [] i v = []
  set (x ∷ xs) zero v = v ∷ xs
  set (x ∷ xs) (suc i) v = x ∷ set xs i v

  abbrev pub length : List A → ℕ
  length [] = 0
  length (x ∷ xs) = suc (length xs)

  abbrev pub take : ℕ → List A → List A
  take zero xs = []
  take (suc n) [] = []
  take (suc n) (x ∷ xs) = x ∷ take n xs

  abbrev pub drop : ℕ → List A → List A
  drop zero xs = xs
  drop (suc n) [] = []
  drop (suc n) (x ∷ xs) = drop n xs

  pub take-append-drop : (n : ℕ) (xs : List A) → take n xs ++ drop n xs ≡ xs
  take-append-drop zero xs = refl
  take-append-drop (suc n) [] = refl
  take-append-drop (suc n) (x ∷ xs) = ap (◌∷◌ x) (take-append-drop n xs)

  pub length-set : (xs : List A) (i : ℕ) (v : A) → length (set xs i v) ≡ length xs
  length-set [] i v = refl
  length-set (x ∷ xs) zero v = refl
  length-set (x ∷ xs) (suc i) v = ap suc (length-set xs i v)

  pub drop-get_or :
      (i : ℕ) (xs : List A) (d : A) → i < length xs → drop i xs ≡ get_or xs i d ∷ drop (i + 1) xs
  drop-get_or i [] d h = absurd (omega arith)
  drop-get_or zero (x ∷ xs) d h = refl
  drop-get_or (suc i) (x ∷ xs) d h =
      drop-get_or i xs d (omega arith)
      ∙ ap (λ k. get_or xs i d ∷ drop k (x ∷ xs)) {x = suc (i + 1)} {y = suc i + 1} (omega arith)

  pub take-get_or :
      (i : ℕ) (xs : List A) (d : A)
      → i < length xs
      → take (i + 1) xs ≡ take i xs ++ (get_or xs i d ∷ [])
  take-get_or i [] d h = absurd (omega arith)
  take-get_or zero (x ∷ xs) d h = refl
  take-get_or (suc i) (x ∷ xs) d h =
      ap (λ k. take k (x ∷ xs)) {x = suc i + 1} {y = suc (i + 1)} (omega arith)
      ∙ ap (◌∷◌ x) (take-get_or i xs d (omega arith))

  -- A write at `i` shows in what is taken past it, and not behind.
  pub take-set :
      (i : ℕ) (xs : List A) (v : A)
      → i < length xs
      → take (i + 1) (set xs i v) ≡ take i xs ++ (v ∷ [])
  take-set i [] v h = absurd (omega arith)
  take-set zero (x ∷ xs) v h = refl
  take-set (suc i) (x ∷ xs) v h =
      ap (λ k. take k (x ∷ set xs i v)) {x = suc i + 1} {y = suc (i + 1)} (omega arith)
      ∙ ap (◌∷◌ x) (take-set i xs v (omega arith))

  pub drop-set : (j i : ℕ) (xs : List A) (v : A) → i < j → drop j (set xs i v) ≡ drop j xs
  drop-set zero i xs v h = absurd (omega arith)
  drop-set (suc j) i [] v h = refl
  drop-set (suc j) zero (x ∷ xs) v h = refl
  drop-set (suc j) (suc i) (x ∷ xs) v h = drop-set j i xs v (omega arith)

  pub nil_of_length : (xs : List A) → length xs ≡ 0 → xs ≡ []
  nil_of_length [] h = refl
  nil_of_length (x ∷ xs) h = absurd (omega arith)

  pub length-append : (xs ys : List A) → length (xs ++ ys) ≡ length xs + length ys
  length-append [] ys = omega arith
  length-append (x ∷ xs) ys = omega (arith, length-append xs ys)

  pub length-take : (n : ℕ) (xs : List A) → length (take n xs) ≡ min n (length xs)
  length-take zero xs = omega arith
  length-take (suc n) [] = omega arith
  length-take (suc n) (x ∷ xs) = omega (arith, length-take n xs)

  pub length-drop : (n : ℕ) (xs : List A) → length (drop n xs) ≡ length xs - n
  length-drop zero xs = omega arith
  length-drop (suc n) [] = omega arith
  length-drop (suc n) (x ∷ xs) = omega (arith, length-drop n xs)

  pub take_of_length-le : (n : ℕ) (xs : List A) → length xs ≤ n → take n xs ≡ xs
  take_of_length-le (suc m) (y ∷ ys) h = ap (λ t. y ∷ t) (take_of_length-le m ys (omega arith))
  take_of_length-le (suc m) [] h = refl
  take_of_length-le zero (y ∷ ys) h = absurd (omega arith)
  take_of_length-le zero [] h = refl

  pub take-append_length : (xs ys : List A) → take (length xs) (xs ++ ys) ≡ xs
  take-append_length [] ys = refl
  take-append_length (x ∷ xs) ys = ap (◌∷◌ x) (take-append_length xs ys)

  -- What stands behind a list that is long enough is not taken.
  pub take-append_long : (n : ℕ) (xs ys : List A) → n ≤ length xs → take n (xs ++ ys) ≡ take n xs
  take-append_long zero xs ys h = refl
  take-append_long (suc n) [] ys h = absurd (omega arith)
  take-append_long (suc n) (x ∷ xs) ys h = ap (◌∷◌ x) (take-append_long n xs ys (omega arith))

  pub take-take : (m n : ℕ) (xs : List A) → m ≤ n → take m (take n xs) ≡ take m xs
  take-take zero n xs h = refl
  take-take (suc m) zero xs h = absurd (omega arith)
  take-take (suc m) (suc n) [] h = refl
  take-take (suc m) (suc n) (x ∷ xs) h = ap (◌∷◌ x) (take-take m n xs (omega arith))

  pub drop-append_length : (xs ys : List A) → drop (length xs) (xs ++ ys) ≡ ys
  drop-append_length [] ys = refl
  drop-append_length (x ∷ xs) ys = drop-append_length xs ys

  abbrev pub All {κ} : (A → Type κ) → List A → Type κ
  All P [] = Unit {κ}
  All P (x ∷ xs) = P x × All P xs

module _ {ℓ κ} {A : Type ℓ} (P : A → Type κ) where
  pub All-imp {ι} : (Q : A → Type ι) (f : (a : A) → P a → Q a) (xs : List A) → All P xs → All Q xs
  All-imp Q f [] h = tt
  All-imp Q f (x ∷ xs) h = (f x h.0, All-imp Q f xs h.1)

  pub All-append : (xs ys : List A) → All P xs → All P ys → All P (xs ++ ys)
  All-append [] ys h k = k
  All-append (x ∷ xs) ys h k = (h.0, All-append xs ys h.1 k)

  pub All-split : (xs ys : List A) → All P (xs ++ ys) → All P xs × All P ys
  All-split [] ys h = (tt, h)
  All-split (x ∷ xs) ys h = let (k, l) = All-split xs ys h.1 in ((h.0, k), l)

  pub All-take : (n : ℕ) (xs : List A) → All P xs → All P (take n xs)
  All-take zero xs h = tt
  All-take (suc n) [] h = tt
  All-take (suc n) (x ∷ xs) h = (h.0, All-take n xs h.1)

-- A list has an element.
abbrev pub Member : {A : Type 0} → A → List A → Type 0
Member x [] = ⊥
Member x (y ∷ ys) = (y ≡ x) ⊎ Member x ys

pub All-Member {κ} :
    {A : Type 0} (P : A → Type κ) (x : A) (xs : List A) → All P xs → Member x xs → P x
All-Member P x [] h m = absurd m
All-Member P x (y ∷ ys) h (inl e) = subst P e h.0
All-Member P x (y ∷ ys) h (inr m) = All-Member P x ys h.1 m
