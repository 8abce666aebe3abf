-- ===== src/Kcp/Packet/Layers.antt =====
-- The layers of a datagram, the header and the cipher: each is written and undone by the reader.
use gzv2ray_v.Prelude.{
  ℕ, none, some, refl, arith, [], Option, List, ◌<◌, ◌≡◌, length, ◌≤◌, ◌+◌, ◌++◌, length-append,
  le→ltb_false, lt→leb_false, ap, drop-append_length, take_of_length-le, ◌-◌, append_assoc,
  take-append_length,
}
use gzv2ray_v.Kcp.Go.{value}
use gzv2ray_v.Kcp.Segment.{buffer_size}
use gzv2ray_v.Kcp.Packet.{
  Aead, IsAead, strip_header, open_security, extend, write_header, write_security, overhead,
}

abbrev pub IsSecurity : Option Aead → Type 0
IsSecurity none = Unit {0}
IsSecurity (some a) = IsAead a

abbrev pub header_size : Option ℕ → ℕ
header_size none = 0
header_size (some size) = size

-- The room that `n` bytes of segments want behind the header.
abbrev pub sealed_room : (security : Option Aead) → IsSecurity security → ℕ → ℕ
sealed_room none law n = n
sealed_room (some a) law n = a.nonce_size + law.room n

abbrev pub nonce_size : Option Aead → ℕ
nonce_size none = 0
nonce_size (some a) = a.nonce_size

abbrev pub HasSize : Option ℕ → List ℕ → Type 0
HasSize none b = Unit {0}
HasSize (some size) b = length b ≡ size

abbrev pub HasNonce : Option Aead → List ℕ → Type 0
HasNonce none b = Unit {0}
HasNonce (some a) b = length b ≡ a.nonce_size

extend-value :
    (n : ℕ) (bb bytes : List ℕ) → length bb + n ≤ 2048 → extend n bb bytes ≡ value (bb ++ bytes)
unfolding extend
extend-value n bb bytes h = rw (le→ltb_false buffer_size (length bb + n) h)

-- The two layers of the writer, each undone by the reader.
pub strip-write_header :
    (header : Option ℕ) (header_bytes : List ℕ)
    → HasSize header header_bytes
    → header_size header ≤ 2048
    → (bb : List ℕ) × (write_header header header_bytes ≡ value bb)
      × ((b : List ℕ) → 0 < length b → strip_header header (bb ++ b) ≡ some b)
      × (length bb ≡ header_size header)
unfolding write_header strip_header
strip-write_header none hb h l = ([], refl, λ b p. refl, refl)
strip-write_header (some size) hb h l = (hb, extend-value size [] hb (omega arith), stripped, h)
  where
    stripped : (b : List ℕ) → 0 < length b → strip_header (some size) (hb ++ b) ≡ some b
    stripped b p = rw (
      ← h,
      lt→leb_false (length (hb ++ b)) (length hb) (omega (arith, length-append hb b)),
      drop-append_length,
    )

in_clear : (header : Option ℕ) (n : ℕ) → n + header_size header ≡ overhead header none + 0 + n
unfolding overhead
in_clear none n = omega arith
in_clear (some size) n = omega arith

with_cipher :
    (header : Option ℕ) (a : Aead) → overhead header (some a) ≡ header_size header + a.overhead
unfolding overhead
with_cipher none a = omega arith
with_cipher (some size) a = omega arith

pub open-write_security :
    (header : Option ℕ) (security : Option Aead) (law : IsSecurity security) (nonce bb b : List ℕ)
    → HasNonce security nonce
    → 0 < length b
    → length bb + sealed_room security law (length b) ≤ 2048
    → (sealed : List ℕ) × (write_security security nonce bb b ≡ value (bb ++ sealed))
      × (open_security security sealed ≡ value (some b))
      × (length sealed + header_size header
          ≡ overhead header security + nonce_size security + length b)
unfolding write_security open_security
open-write_security header none law nonce bb b hn p l = (
  b,
  ap (λ t. value (bb ++ t)) (take_of_length-le (2048 - length bb) b (omega arith)),
  refl,
  in_clear header (length b),
)
open-write_security header (some a) law nonce bb b hn p l =
    let room = law.room_le (length b) in
    let capacity = 2048 - length (bb ++ nonce) in
    let size = length-append bb nonce in
    let sealed = a.seal capacity nonce b in
    (
      nonce ++ sealed,
      simp (
        extend-value a.nonce_size bb nonce (omega (arith, room)),
        extend-value (a.overhead + length b) (bb ++ nonce) sealed (omega (arith, size, room, hn)),
        append_assoc,
      ),
      rw
          (
            ← hn,
            lt→leb_false (length (nonce ++ sealed)) (length nonce + a.overhead)
                (omega (arith, length-append nonce sealed, law.length-seal capacity nonce b)),
            take-append_length,
            drop-append_length,
          )
          (law.unseal-seal capacity nonce b (omega (arith, room)) (omega (arith, size, hn))),
      omega (
        arith,
        length-append nonce sealed,
        law.length-seal capacity nonce b,
        with_cipher header a,
        hn,
      ),
    )

pub sealed_pos :
    (header : Option ℕ) (security : Option Aead) (n m : ℕ)
    → m + header_size header ≡ overhead header security + nonce_size security + n
    → 0 < n
    → 0 < m
unfolding overhead
sealed_pos none none n m e p = omega arith
sealed_pos none (some a) n m e p = omega arith
sealed_pos (some size) none n m e p = omega arith
sealed_pos (some size) (some a) n m e p = omega arith
