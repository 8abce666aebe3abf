-- ===== src/Prelude/Bits.antt =====
-- Exclusive or, by the lowest binary digit.
use Prim.Native.Nat.{digits, differ, bit_xor-bitwise}
use native.Mathlib.Nat.{pow-suc}
use gzv2ray_v.Prelude.{
  bit_xor, ℕ, zero, suc, ◌+◌, ◌*◌, ◌/◌, ◌%◌, ◌^◌, ◌<◌, ◌≤◌, ◌≡◌, refl, arith, ◌∙◌, ap₂,
}

abbrev by_digits : ℕ → ℕ → ℕ → ℕ
by_digits k a b = digits (λ y. y) differ k a b

-- Two counts of digits that both reach the end of `a` give one result.
by_digits-same : (a b k l : ℕ) → a ≤ k → a ≤ l → by_digits k a b ≡ by_digits l a b
by_digits-same (suc a) b (suc k) (suc l) p q =
    rw (by_digits-same (suc a / 2) (b / 2) k l (omega arith) (omega arith)) refl
by_digits-same (suc a) b zero l p q = absurd (omega arith)
by_digits-same (suc a) b (suc k) zero p q = absurd (omega arith)
by_digits-same zero b (suc k) (suc l) p q = refl
by_digits-same zero b (suc k) zero p q = refl
by_digits-same zero b zero (suc l) p q = refl
by_digits-same zero b zero zero p q = refl

pub bit_xor-halves : (a b : ℕ) → bit_xor a b ≡ bit_xor (a / 2) (b / 2) * 2 + differ (a % 2) (b % 2)
bit_xor-halves zero b = simp bit_xor-bitwise (omega arith)
bit_xor-halves (suc a) b =
    simp bit_xor-bitwise
      (omega (arith, by_digits-same (suc a / 2) (b / 2) a (suc a / 2) (omega arith) (omega arith)))

xor_zero : (b : ℕ) → bit_xor 0 b ≡ b
xor_zero b = simp bit_xor-bitwise refl

xor_self : (k a : ℕ) → a ≤ k → bit_xor a a ≡ 0
xor_self zero zero h = refl
xor_self zero (suc a) h = absurd (omega arith)
xor_self (suc k) zero h = refl
xor_self (suc k) (suc a) h = omega (
  arith,
  bit_xor-halves (suc a) (suc a),
  xor_self k (suc a / 2) (omega arith),
  differ_self (suc a % 2),
)
  where
    differ_self : (n : ℕ) → differ n n ≡ 0
    differ_self zero = refl
    differ_self (suc n) = differ_self n

-- The exclusive or of two digits is one, and undoes itself.
digit : (x y : ℕ) → x < 2 → y < 2 → (differ x y < 2) × (differ (differ x y) y ≡ x)
digit zero zero p q = (omega arith, refl)
digit zero (suc zero) p q = (omega arith, refl)
digit (suc zero) zero p q = (omega arith, refl)
digit (suc zero) (suc zero) p q = (omega arith, refl)
digit (suc (suc x)) y p q = absurd (omega arith)
digit zero (suc (suc y)) p q = absurd (omega arith)
digit (suc zero) (suc (suc y)) p q = absurd (omega arith)

cancels : (k a b : ℕ) → a ≤ k → bit_xor (bit_xor a b) b ≡ a
cancels zero zero b h = rw (xor_zero b) (xor_self b b (omega arith))
cancels zero (suc a) b h = absurd (omega arith)
cancels (suc k) a b h =
    let d = digit (a % 2) (b % 2) (omega arith) (omega arith) in
    let low : bit_xor a b % 2 ≡ differ (a % 2) (b % 2) = omega (arith, bit_xor-halves a b, d.0) in
    let high : bit_xor a b / 2 ≡ bit_xor (a / 2) (b / 2) = omega (arith, bit_xor-halves a b, d.0) in
    bit_xor-halves (bit_xor a b) b
    ∙ ap₂ (λ h l. bit_xor h (b / 2) * 2 + differ l (b % 2)) high low
    ∙ omega (arith, cancels k (a / 2) (b / 2) (omega arith), d.1)

pub bit_xor-bit_xor : (a b : ℕ) → bit_xor (bit_xor a b) b ≡ a
bit_xor-bit_xor a b = cancels a a b (omega arith)

below_power : (k a b : ℕ) → a < 2 ^ k → b < 2 ^ k → bit_xor a b < 2 ^ k
below_power zero zero zero p q = omega arith
below_power zero (suc a) b p q = absurd (omega arith)
below_power zero zero (suc b) p q = absurd (omega arith)
below_power (suc k) a b p q =
    let d = digit (a % 2) (b % 2) (omega arith) (omega arith) in
    omega (
      arith,
      bit_xor-halves a b,
      below_power k (a / 2) (b / 2) (omega (arith, pow-suc 2 k)) (omega (arith, pow-suc 2 k)),
      pow-suc 2 k,
      d.0,
    )

pub bit_xor_byte : (a b : ℕ) → a < 256 → b < 256 → bit_xor a b < 256
bit_xor_byte a b p q = below_power 8 a b p q
