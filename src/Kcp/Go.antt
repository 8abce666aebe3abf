-- ===== src/Kcp/Go.antt =====
-- What the package takes from Go: slices that panic out of range, and encoding/binary's big-endian
-- words. A byte slice is a list of numbers below 256.
pub mod Slices
use gzv2ray_v.Prelude.{
  ℕ, ◌+◌, ◌*◌, ◌/◌, ◌%◌, ◌^◌, ◌<◌, List, [], ◌∷◌, length, take, drop, leb, if◌then◌else◌, ◌-◌,
}

-- A computation that returns, or that stops the goroutine by a run-time panic.
pub data Go {ℓ} (A : Type ℓ) : Type ℓ where
  value : A → Go A
  panic : Go A

infixl 5 ◌>>=◌
abbrev pub ◌>>=◌ {ℓ κ} : {A : Type ℓ} {B : Type κ} → Go A → (A → Go B) → Go B
value a >>= f = f a
panic >>= f = panic

abbrev pub IsByte : ℕ → Type 0
IsByte b = b < 256

abbrev pub IsU16 : ℕ → Type 0
IsU16 n = n < 2 ^ 16

abbrev pub IsU32 : ℕ → Type 0
IsU32 n = n < 2 ^ 32

-- `binary.BigEndian.PutUint16` and `PutUint32`, as the bytes that they store.
unfoldable pub put_u16 : ℕ → List ℕ
put_u16 v = v / 256 % 256 ∷ v % 256 ∷ []

unfoldable pub put_u32 : ℕ → List ℕ
put_u32 v = v / 16777216 % 256 ∷ v / 65536 % 256 ∷ v / 256 % 256 ∷ v % 256 ∷ []

-- `binary.BigEndian.Uint16` and `Uint32`; a slice that is too short is an index out of range.
unfoldable pub u16 : List ℕ → Go ℕ
u16 (a ∷ b ∷ _) = value (a * 256 + b)
u16 _ = panic

unfoldable pub u32 : List ℕ → Go ℕ
u32 (a ∷ b ∷ c ∷ d ∷ _) = value (((a * 256 + b) * 256 + c) * 256 + d)
u32 _ = panic

-- `b[0]`
unfoldable pub first : List ℕ → Go ℕ
first (a ∷ _) = value a
first [] = panic

-- `b[n:]` and `b[:n]`
unfoldable pub slice_from : ℕ → List ℕ → Go (List ℕ)
slice_from n b = if leb n (length b) then value (drop n b) else panic

unfoldable pub slice_to : ℕ → List ℕ → Go (List ℕ)
slice_to n b = if leb n (length b) then value (take n b) else panic

-- `a - b` and `a + b` of two `uint32`.
abbrev pub sub_u32 : ℕ → ℕ → ℕ
sub_u32 a b = (a + 2 ^ 32 - b) % 2 ^ 32

abbrev pub add_u32 : ℕ → ℕ → ℕ
add_u32 a b = (a + b) % 2 ^ 32
