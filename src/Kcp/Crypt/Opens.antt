-- ===== src/Kcp/Crypt/Opens.antt =====
-- `Open` gives back what `Seal` sealed, and takes nothing else.
use gzv2ray_v.Prelude.Bits.{bit_xor_byte}
use native.Mathlib.Decide.{dec_lt}
use gzv2ray_v.Prelude.Entries.{from_entries, All-get_or}
use gzv2ray_v.Kcp.Go.{Go, value, IsByte, put_u16, put_u32, u16, u32, slice_from, slice_to}
use gzv2ray_v.Kcp.Go.Slices.{slice_from-length, slice_to-length}
use gzv2ray_v.Kcp.Crypt.{fnv_from, fnv_32a, authenticated, seal, verify, unseal}
use gzv2ray_v.Kcp.Crypt.Words.{
  chained, unchained, unchained-chained, chained-unchained, length-chained, length-unchained,
  unchained-at,
}
use gzv2ray_v.Prelude.{
  ℕ, none, some, refl, arith, [], ◌∷◌, List, ◌<◌, ◌≡◌, length, ◌^◌, if◌then◌else◌, ◌+◌, bit_xor,
  not, ◌*◌, ◌%◌, ◌==◌, inl, inr, Bool-cases, ◌/◌, ◌∙◌, ◌≤◌, All, Option, sym, ==_iff, ◌++◌, ◌↔◌, ap,
  get_or, ◌-◌,
}

fnv_from-U32 : (h : ℕ) (bytes : List ℕ) → h < 2 ^ 32 → fnv_from h bytes < 2 ^ 32
unfolding fnv_from
fnv_from-U32 h [] p = p
fnv_from-U32 h (b ∷ bytes) p = fnv_from-U32 (bit_xor h b * 16777619 % 2 ^ 32) bytes (omega arith)

fnv_32a-U32 : (bytes : List ℕ) → fnv_32a bytes < 2 ^ 32
unfolding fnv_32a
fnv_32a-U32 bytes = fnv_from-U32 2166136261 bytes (omega arith)

-- With six bytes there is nothing out of range: the header's two words, and the answer.
verify-header :
    (a b c d e f : ℕ) (plain : List ℕ)
    → verify (a ∷ b ∷ c ∷ d ∷ e ∷ f ∷ plain)
      ≡ value (
          if not (((a * 256 + b) * 256 + c) * 256 + d == fnv_32a (e ∷ f ∷ plain))
          then none
          else if not (length plain == e * 256 + f)
          then none
          else some plain)
unfolding verify u32 u16
verify-header a b c d e f plain =
    elim (Bool-cases (((a * 256 + b) * 256 + c) * 256 + d == fnv_32a (e ∷ f ∷ plain))) [
      | inl same ↦
          simp (behind_four, first_four, first_two, behind_six, same)
            (elim (Bool-cases (length plain == e * 256 + f)) [
              | inl fits ↦ rw fits (ground arith)
              | inr off ↦ rw off (ground arith)
            ])
      | inr other ↦ simp (behind_four, first_four, other)
    ]
  where
    behind_four : slice_from 4 (a ∷ b ∷ c ∷ d ∷ e ∷ f ∷ plain) ≡ value (e ∷ f ∷ plain)
    behind_four = slice_from-length 4 (a ∷ b ∷ c ∷ d ∷ []) (e ∷ f ∷ plain) refl

    first_four : slice_to 4 (a ∷ b ∷ c ∷ d ∷ e ∷ f ∷ plain) ≡ value (a ∷ b ∷ c ∷ d ∷ [])
    first_four = slice_to-length 4 (a ∷ b ∷ c ∷ d ∷ []) (e ∷ f ∷ plain) refl

    first_two : slice_to 2 (e ∷ f ∷ plain) ≡ value (e ∷ f ∷ [])
    first_two = slice_to-length 2 (e ∷ f ∷ []) plain refl

    behind_six : slice_from 6 (a ∷ b ∷ c ∷ d ∷ e ∷ f ∷ plain) ≡ value plain
    behind_six = slice_from-length 6 (a ∷ b ∷ c ∷ d ∷ e ∷ f ∷ []) plain refl

pub length-authenticated : (plain : List ℕ) → length (authenticated plain) ≡ 6 + length plain
unfolding authenticated put_u32 put_u16
length-authenticated plain = omega arith

verify-authenticated :
    (plain : List ℕ) → length plain < 2 ^ 16 → verify (authenticated plain) ≡ value (some plain)
unfolding authenticated put_u32 put_u16
verify-authenticated plain l =
    let n = length plain % 2 ^ 16 in
    let covered = n / 256 % 256 ∷ n % 256 ∷ plain in
    let sum = fnv_32a covered in
    verify-header (sum / 16777216 % 256) (sum / 65536 % 256) (sum / 256 % 256) (sum % 256)
      (n / 256 % 256) (n % 256) plain
    ∙ ground (arith, fnv_32a-U32 covered)

-- The bytes of an unsigned word, from the word.
put_u32-of :
    (a b c d n : ℕ)
    → IsByte a
    → IsByte b
    → IsByte c
    → IsByte d
    → ((a * 256 + b) * 256 + c) * 256 + d ≡ n
    → put_u32 n ≡ a ∷ b ∷ c ∷ d ∷ []
unfolding put_u32
put_u32-of a b c d n p q r s e =
    let x : n / 16777216 % 256 ≡ a = omega (arith, p, q, r, s, e) in
    let y : n / 65536 % 256 ≡ b = omega (arith, p, q, r, s, e) in
    let z : n / 256 % 256 ≡ c = omega (arith, p, q, r, s, e) in
    let w : n % 256 ≡ d = omega (arith, p, q, r, s, e) in rw (x, y, z, w) refl

put_u16-of : (a b n : ℕ) → IsByte a → IsByte b → a * 256 + b ≡ n → put_u16 (n % 2 ^ 16) ≡ a ∷ b ∷ []
unfolding put_u16
put_u16-of a b n p q e =
    let x : n % 2 ^ 16 / 256 % 256 ≡ a = omega (arith, p, q, e) in
    let y : n % 2 ^ 16 % 256 ≡ b = omega (arith, p, q, e) in rw (x, y) refl

stored :
    (sum size plain : List ℕ)
    → put_u16 (length plain % 2 ^ 16) ≡ size
    → put_u32 (fnv_32a (size ++ plain)) ≡ sum
    → sum ++ (size ++ plain) ≡ authenticated plain
unfolding authenticated
stored sum size plain p q = sym (rw (p, q) refl)

rejected : (plain : List ℕ) → ◌≡◌ {A = Go (Option (List ℕ))} (value none) (value (some plain)) → ⊥
rejected plain e = cc e

verify_sound :
    (dst plain : List ℕ)
    → 6 ≤ length dst
    → All IsByte dst
    → verify dst ≡ value (some plain)
    → (length plain < 2 ^ 16) × (dst ≡ authenticated plain)
verify_sound (a ∷ b ∷ c ∷ d ∷ e ∷ f ∷ rest) plain l (p, (q, (r, (s, (t, (u, _)))))) h =
    let sum = ((a * 256 + b) * 256 + c) * 256 + d in
    let k = sym (verify-header a b c d e f rest) ∙ h in
    elim (Bool-cases (sum == fnv_32a (e ∷ f ∷ rest))) [
      | inr other ↦ absurd (rejected plain (rw other at k))
      | inl same ↦ elim (Bool-cases (length rest == e * 256 + f)) [
        | inr off ↦ absurd (rejected plain (rw (same, off) at k))
        | inl fits ↦
            let n : length rest ≡ e * 256 + f = (==_iff _ _).0 fits in
            let same_plain : rest ≡ plain = cc (rw (same, fits) at k) in
            rw (← same_plain) (
              omega (arith, n, t, u),
              stored (a ∷ b ∷ c ∷ d ∷ []) (e ∷ f ∷ []) rest
                  (put_u16-of e f (length rest) t u (sym n))
                  (put_u32-of a b c d (fnv_32a (e ∷ f ∷ rest)) p q r s ((==_iff _ _).0 same)),
            )
      ]
    ]
verify_sound [] plain l i h = absurd (omega arith)
verify_sound (a ∷ []) plain l i h = absurd (omega arith)
verify_sound (a ∷ b ∷ []) plain l i h = absurd (omega arith)
verify_sound (a ∷ b ∷ c ∷ []) plain l i h = absurd (omega arith)
verify_sound (a ∷ b ∷ c ∷ d ∷ []) plain l i h = absurd (omega arith)
verify_sound (a ∷ b ∷ c ∷ d ∷ e ∷ []) plain l i h = absurd (omega arith)

verify_answers : (dst : List ℕ) → 6 ≤ length dst → (r : Option (List ℕ)) × (verify dst ≡ value r)
verify_answers (a ∷ b ∷ c ∷ d ∷ e ∷ f ∷ rest) l = (_, verify-header a b c d e f rest)
verify_answers [] l = absurd (omega arith)
verify_answers (a ∷ []) l = absurd (omega arith)
verify_answers (a ∷ b ∷ []) l = absurd (omega arith)
verify_answers (a ∷ b ∷ c ∷ []) l = absurd (omega arith)
verify_answers (a ∷ b ∷ c ∷ d ∷ []) l = absurd (omega arith)
verify_answers (a ∷ b ∷ c ∷ d ∷ e ∷ []) l = absurd (omega arith)

pub length-seal : (plain : List ℕ) → length (seal plain) ≡ 6 + length plain
unfolding seal
length-seal plain = length-chained (authenticated plain) ∙ length-authenticated plain

-- What was sealed opens.
pub unseal-seal :
    (plain : List ℕ) → length plain < 2 ^ 16 → unseal (seal plain) ≡ value (some plain)
unfolding unseal seal
unseal-seal plain l = rw (unchained-chained (authenticated plain)) (verify-authenticated plain l)

unchained-bytes : (c : List ℕ) → All IsByte c → All IsByte (unchained c)
unchained-bytes c h = from_entries IsByte (unchained c) 0 (λ j l.
    let m : j < length c = omega (arith, l, length-unchained c) in
    elim (dec_lt j 4) [
      | yes q ↦ ground (arith, unchained-at c j m, All-get_or IsByte c j 0 h m)
      | no q ↦ ground (
        arith,
        unchained-at c j m,
        bit_xor_byte (get_or c j 0) (get_or c (j - 4) 0) (All-get_or IsByte c j 0 h m)
            (All-get_or IsByte c (j - 4) 0 h (omega arith)),
      )
    ])

-- `Open` of six bytes or more does not panic, and returns plain bytes exactly if what it was given is
-- what `Seal` makes of these and their number fits in 16 bits; in every other case it is an error.
pub unseal_accepts :
    (cipher_text : List ℕ)
    → All IsByte cipher_text
    → 6 ≤ length cipher_text
    → (r : Option (List ℕ)) × (unseal cipher_text ≡ value r)
      × ((plain : List ℕ)
          → (r ≡ some plain) ↔ ((length plain < 2 ^ 16) × (cipher_text ≡ seal plain)))
unfolding unseal seal
unseal_accepts c h l =
    let n : 6 ≤ length (unchained c) = omega (arith, l, length-unchained c) in
    let (r, e) = verify_answers (unchained c) n in
    (
      r,
      e,
      λ plain. (
        λ accepted.
            let (fits, same) =
              verify_sound (unchained c) plain n (unchained-bytes c h) (e ∙ ap value accepted) in
            (fits, sym (chained-unchained c) ∙ ap chained same),
        λ k. cc (sym e ∙ ap unseal k.1 ∙ unseal-seal plain k.0),
      ),
    )
