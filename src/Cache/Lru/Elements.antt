-- ===== src/Cache/Lru/Elements.antt =====
-- The linked elements with what they hold, in order: looking one up, taking one out.
use mathlib.Core.Path.{subst}
use gzv2ray_v.Prelude.{
  ℕ, false, inl, inr, none, some, [], Bool-cases, ◌∷◌, List, ◌==◌, Option, if◌then◌else◌, ◌≡◌, All,
  true, refl, arith, ap, ◌∙◌, ==_iff, sym, All-imp,
}

-- A linked element: its address, its key and its value.
pub record Entry : Type 0 where
  pub address : ℕ
  pub key : ℕ
  pub held : ℕ

-- The first entry whose `f` is `x`; the entries without it; and no two entries with one `f`.
module _ (f : Entry → ℕ) where
  unfoldable pub find : ℕ → List Entry → Option Entry
  find x [] = none
  find x (e ∷ es) = let rest = find x es in if f e == x then some e else rest

  unfoldable pub without : ℕ → List Entry → List Entry
  without x [] = []
  without x (e ∷ es) = let rest = without x es in if f e == x then es else e ∷ rest

  abbrev pub Differs : Entry → Entry → Type 0
  Differs e d = (f d == f e) ≡ false

  abbrev pub Unique : List Entry → Type 0
  Unique [] = Unit
  Unique (e ∷ es) = All (Differs e) es × Unique es

module _ (f : Entry → ℕ) where
  pub find-here :
      (x : ℕ) (d : Entry) (es : List Entry) → (f d == x) ≡ true → find f x (d ∷ es) ≡ some d
  unfolding find
  find-here x d es e = rw e refl

  pub find-later :
      (x : ℕ) (d : Entry) (es : List Entry) → (f d == x) ≡ false → find f x (d ∷ es) ≡ find f x es
  unfolding find
  find-later x d es e = rw e refl

  pub without-here :
      (x : ℕ) (d : Entry) (es : List Entry) → (f d == x) ≡ true → without f x (d ∷ es) ≡ es
  unfolding without
  without-here x d es e = rw e refl

  pub without-later :
      (x : ℕ) (d : Entry) (es : List Entry)
      → (f d == x) ≡ false
      → without f x (d ∷ es) ≡ d ∷ without f x es
  unfolding without
  without-later x d es e = rw e refl

  pub find_nil : (x : ℕ) → find f x [] ≡ none
  unfolding find
  find_nil x = refl

  pub All-find {κ} :
      (P : Entry → Type κ) (x : ℕ) (es : List Entry) (e : Entry)
      → find f x es ≡ some e
      → All P es
      → P e
  All-find P x [] e h a = absurd (cc (h, find_nil x))
  All-find P x (d ∷ es) e h a = elim (Bool-cases (f d == x)) [
    | inl same ↦ subst P (cc (find-here x d es same, h)) a.0
    | inr other ↦ All-find P x es e (sym (find-later x d es other) ∙ h) a.1
  ]

  pub find_sound : (x : ℕ) (es : List Entry) (e : Entry) → find f x es ≡ some e → f e ≡ x
  find_sound x [] e h = absurd (cc (h, find_nil x))
  find_sound x (d ∷ es) e h = elim (Bool-cases (f d == x)) [
    | inl same ↦
        let k : d ≡ e = cc (find-here x d es same, h) in ap f (sym k) ∙ (==_iff (f d) x).0 same
    | inr other ↦ find_sound x es e (sym (find-later x d es other) ∙ h)
  ]

  pub All-without {κ} :
      (P : Entry → Type κ) (x : ℕ) (es : List Entry) → All P es → All P (without f x es)
  unfolding without
  All-without P x [] a = tt
  All-without P x (d ∷ es) a = elim (Bool-cases (f d == x)) [
    | inl same ↦ rw (without-here x d es same) a.1
    | inr other ↦ rw (without-later x d es other) (a.0, All-without P x es a.1)
  ]

  -- A number that no entry has is not found.
  pub find-absent :
      (x : ℕ) (es : List Entry) → All (λ d. (f d == x) ≡ false) es → find f x es ≡ none
  find-absent x [] a = find_nil x
  find-absent x (d ∷ es) a = find-later x d es a.0 ∙ find-absent x es a.1

-- Taking out the entry whose `g` is `x`, as seen by `f`.
module _ (f g : Entry → ℕ) (x : ℕ) where
  pub Unique-without : (es : List Entry) → Unique f es → Unique f (without g x es)
  unfolding without
  Unique-without [] u = tt
  Unique-without (d ∷ es) u = elim (Bool-cases (g d == x)) [
    | inl same ↦ rw (without-here g x d es same) u.1
    | inr other ↦
        rw (without-later g x d es other)
          (All-without g (Differs f d) x es u.0, Unique-without es u.1)
  ]

  Differs-without :
      (es : List Entry) (e : Entry)
      → find g x es ≡ some e
      → Unique f es
      → All (Differs f e) (without g x es)
  Differs-without [] e h u = absurd (cc (h, find_nil g x))
  Differs-without (d ∷ es) e h u = elim (Bool-cases (g d == x)) [
    | inl same ↦
        let k : d ≡ e = cc (find-here g x d es same, h) in
        rw (without-here g x d es same) (subst (λ t. All (Differs f t) es) k u.0)
    | inr other ↦
        let later = sym (find-later g x d es other) ∙ h in
        rw (without-later g x d es other) (
          ground (arith, All-find g (Differs f d) x es e later u.0),
          Differs-without es e later u.1,
        )
  ]

  pub find-own :
      (es : List Entry) (e : Entry) → find g x es ≡ some e → Unique f es → find f (f e) es ≡ some e
  find-own [] e h u = absurd (cc (h, find_nil g x))
  find-own (d ∷ es) e h u = elim (Bool-cases (g d == x)) [
    | inl same ↦
        let k : d ≡ e = cc (find-here g x d es same, h) in
        find-here f (f e) d es ((==_iff (f d) (f e)).1 (ap f k)) ∙ ap some k
    | inr other ↦
        let later = sym (find-later g x d es other) ∙ h in
        find-later f (f e) d es (ground (arith, All-find g (Differs f d) x es e later u.0))
        ∙ find-own es e later u.1
  ]

  pub find-without :
      (y : ℕ) (es : List Entry) (e : Entry)
      → find g x es ≡ some e
      → Unique f es
      → find f y (without g x es) ≡ (if f e == y then none else find f y es)
  find-without y [] e h u = absurd (cc (h, find_nil g x))
  find-without y (d ∷ es) e h u = elim (Bool-cases (g d == x)) [
    | inl same ↦
        let k : d ≡ e = cc (find-here g x d es same, h) in
        let fk = ap f k in
        rw (without-here g x d es same) (elim (Bool-cases (f e == y)) [
          | inl t ↦ rw t (
              find-absent f y es
                (All-imp (Differs f d) (λ z. (f z == y) ≡ false) (λ z n. ground arith) es u.0))
          | inr t ↦ rw t (sym (find-later f y d es (ground arith)))
        ])
    | inr other ↦
        let later = sym (find-later g x d es other) ∙ h in
        let apart = All-find g (Differs f d) x es e later u.0 in
        rw (without-later g x d es other) (elim (Bool-cases (f d == y)) [
          | inl t ↦
              let n : (f e == y) ≡ false = ground arith in
              rw n (find-here f y d (without g x es) t ∙ sym (find-here f y d es t))
          | inr t ↦
              rw (find-later f y d es t)
                (find-later f y d (without g x es) t ∙ find-without y es e later u.1)
        ])
  ]

  -- An entry put in front again is found as before.
  pub find-touched :
      (y : ℕ) (es : List Entry) (e : Entry)
      → find g x es ≡ some e
      → Unique f es
      → find f y (e ∷ without g x es) ≡ find f y es
  find-touched y es e h u = elim (Bool-cases (f e == y)) [
    | inl t ↦
        find-here f y e (without g x es) t
        ∙ sym (find-own es e h u)
        ∙ ap (λ z. find f z es) ((==_iff (f e) y).0 t)
    | inr t ↦ find-later f y e (without g x es) t ∙ find-without y es e h u ∙ rw t refl
  ]

  pub Unique-touched :
      (es : List Entry) (e : Entry)
      → find g x es ≡ some e
      → Unique f es
      → Unique f (e ∷ without g x es)
  Unique-touched es e h u = (Differs-without es e h u, Unique-without es u)

  -- What has `x` for `g` is what has its own `f`.
  pub without-same :
      (es : List Entry) (e : Entry)
      → find g x es ≡ some e
      → Unique f es
      → without f (f e) es ≡ without g x es
  without-same [] e h u = absurd (cc (h, find_nil g x))
  without-same (d ∷ es) e h u = elim (Bool-cases (g d == x)) [
    | inl same ↦
        let k : d ≡ e = cc (find-here g x d es same, h) in
        without-here f (f e) d es ((==_iff (f d) (f e)).1 (ap f k))
        ∙ sym (without-here g x d es same)
    | inr other ↦
        let later = sym (find-later g x d es other) ∙ h in
        let apart = All-find g (Differs f d) x es e later u.0 in
        without-later f (f e) d es (ground arith)
        ∙ ap (◌∷◌ d) (without-same es e later u.1)
        ∙ sym (without-later g x d es other)
  ]
