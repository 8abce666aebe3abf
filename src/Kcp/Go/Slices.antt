-- ===== src/Kcp/Go/Slices.antt =====
-- A word that was stored is read back, and the slice behind it is what followed.
use gzv2ray_v.Prelude.{
  ℕ, ◌≡◌, List, length, ◌++◌, ◌∷◌, ◌≤◌, ap, le→leb, [], ◌+◌, take, arith, length-append, drop,
  length-take, drop-append_length, take-append_length, length-drop, refl,
}
use gzv2ray_v.Kcp.Go.{value, IsU16, IsU32, put_u16, put_u32, u16, u32, first, slice_from, slice_to}

pub u16-put_u16 : (v : ℕ) (b : List ℕ) → IsU16 v → u16 (put_u16 v ++ b) ≡ value v
unfolding u16 put_u16
u16-put_u16 v b h = ap value (omega arith)

pub u32-put_u32 : (v : ℕ) (b : List ℕ) → IsU32 v → u32 (put_u32 v ++ b) ≡ value v
unfolding u32 put_u32
u32-put_u32 v b h = ap value (omega arith)

pub slice_from-length : (n : ℕ) (a b : List ℕ) → length a ≡ n → slice_from n (a ++ b) ≡ value b
unfolding slice_from
slice_from-length n a b e = rw (
  ← e,
  le→leb (length a) (length (a ++ b)) (omega (arith, length-append a b)),
  drop-append_length,
)

pub slice_to-length : (n : ℕ) (a b : List ℕ) → length a ≡ n → slice_to n (a ++ b) ≡ value a
unfolding slice_to
slice_to-length n a b e = rw (
  ← e,
  le→leb (length a) (length (a ++ b)) (omega (arith, length-append a b)),
  take-append_length,
)

pub slice_from-put_u32 : (v : ℕ) (b : List ℕ) → slice_from 4 (put_u32 v ++ b) ≡ value b
unfolding put_u32
slice_from-put_u32 v b = slice_from-length 4 (put_u32 v) b refl

pub slice_from-put_u16 : (v : ℕ) (b : List ℕ) → slice_from 2 (put_u16 v ++ b) ≡ value b
unfolding put_u16
slice_from-put_u16 v b = slice_from-length 2 (put_u16 v) b refl

pub slice_from-cons : (v : ℕ) (b : List ℕ) → slice_from 1 (v ∷ b) ≡ value b
slice_from-cons v b = slice_from-length 1 (v ∷ []) b refl

pub length-put_u32 : (v : ℕ) → length (put_u32 v) ≡ 4
unfolding put_u32
length-put_u32 v = refl

pub length-put_u16 : (v : ℕ) → length (put_u16 v) ≡ 2
unfolding put_u16
length-put_u16 v = refl

-- A slice that is long enough is cut, and what is left is shorter by the cut.
pub slice_from-value :
    (n : ℕ) (b : List ℕ)
    → n ≤ length b
    → (r : List ℕ) × (slice_from n b ≡ value r) × (length r + n ≡ length b)
unfolding slice_from
slice_from-value n b h = (drop n b, rw (le→leb n (length b) h), omega (arith, length-drop n b))

pub slice_to-value :
    (n : ℕ) (b : List ℕ) → n ≤ length b → (r : List ℕ) × (slice_to n b ≡ value r) × (length r ≡ n)
unfolding slice_to
slice_to-value n b h = (take n b, rw (le→leb n (length b) h), omega (arith, length-take n b))

pub u32-value : (b : List ℕ) → 4 ≤ length b → (v : ℕ) × (u32 b ≡ value v)
unfolding u32
u32-value (a ∷ b ∷ c ∷ d ∷ r) h = (_, refl)
u32-value [] h = absurd (omega arith)
u32-value (a ∷ []) h = absurd (omega arith)
u32-value (a ∷ b ∷ []) h = absurd (omega arith)
u32-value (a ∷ b ∷ c ∷ []) h = absurd (omega arith)

pub u16-value : (b : List ℕ) → 2 ≤ length b → (v : ℕ) × (u16 b ≡ value v)
unfolding u16
u16-value (a ∷ b ∷ r) h = (_, refl)
u16-value [] h = absurd (omega arith)
u16-value (a ∷ []) h = absurd (omega arith)

pub first-value : (b : List ℕ) → 1 ≤ length b → (v : ℕ) × (first b ≡ value v)
unfolding first
first-value (a ∷ r) h = (a, refl)
first-value [] h = absurd (omega arith)

-- A word is read and the slice moves past it.
pub field-value :
    (b : List ℕ)
    → 4 ≤ length b
    → (v : ℕ) × (r : List ℕ) × (u32 b ≡ value v)
      × (slice_from 4 b ≡ value r)
      × (length r + 4 ≡ length b)
field-value b h =
    let (v, e) = u32-value b h in let (r, c, l) = slice_from-value 4 b h in (v, r, e, c, l)
