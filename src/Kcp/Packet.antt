-- ===== src/Kcp/Packet.antt =====
-- transport/internet/kcp/io.go: datagrams of several segments, behind an optional packet header and
-- an optional cipher.AEAD, which come from outside the package and are parameters.
pub mod Layers
pub mod RoundTrip
use gzv2ray_v.Prelude.{
  ℕ, ◌==◌, zero, suc, none, some, [], ◌∷◌, List, Option, ◌≡◌, if◌then◌else◌, length, ◌++◌, ◌+◌, leb,
  ltb, take, drop, ◌-◌, ◌≤◌,
}
use gzv2ray_v.Kcp.Go.{Go, value, panic, ◌>>=◌}
use gzv2ray_v.Kcp.Segment.{Segment, buffer_size, read_segment, serialize}

-- What the code calls of `cipher.AEAD`. `seal` is what `Seal` leaves in the memory of a `dst` with
-- room for so many bytes, and `none` of `unseal` is the error.
pub record Aead : Type 0 where
  pub nonce_size : ℕ
  pub overhead : ℕ
  pub seal : ℕ → List ℕ → List ℕ → List ℕ
  pub unseal : List ℕ → List ℕ → Go (Option (List ℕ))

-- The documented contract of an AEAD, for what one buffer can hold: what was sealed in a `dst` with
-- enough room opens under the same nonce, and is longer by the overhead. `room` is the room that is
-- enough for so many plain bytes.
pub record IsAead (a : Aead) : Type 0 where
  pub room : ℕ → ℕ
  pub room_le : (n : ℕ) → a.overhead + n ≤ room n
  pub unseal-seal :
      (capacity : ℕ) (nonce b : List ℕ)
      → length b ≤ 2048
      → room (length b) ≤ capacity
      → a.unseal nonce (a.seal capacity nonce b) ≡ value (some b)
  pub length-seal :
      (capacity : ℕ) (nonce b : List ℕ) → length (a.seal capacity nonce b) ≡ a.overhead + length b

-- `for len(b) > 0 { ... }`. Without fuel the loop would go on, which `panic` marks too.
unfoldable pub read_loop : ℕ → List ℕ → Go (List Segment)
read_loop zero b = if length b == 0 then value [] else panic
read_loop (suc fuel) b = if length b == 0 then value [] else do
  r ← read_segment b
  elim r [ none ↦ value [] | some (seg, x) ↦ do result ← read_loop fuel x; value (seg ∷ result) ]

-- The header is taken off; `none` is the early return.
unfoldable pub strip_header : Option ℕ → List ℕ → Option (List ℕ)
strip_header none b = some b
strip_header (some size) b = if leb (length b) size then none else some (drop size b)

unfoldable pub open_security : Option Aead → List ℕ → Go (Option (List ℕ))
open_security none b = value (some b)
open_security (some a) b =
    if leb (length b) (a.nonce_size + a.overhead)
    then value none
    else a.unseal (take a.nonce_size b) (drop a.nonce_size b)

-- `KCPPacketReader.Read`
unfoldable pub read_packet : Option ℕ → Option Aead → List ℕ → Go (List Segment)
read_packet header security b = elim (strip_header header b) [
  | none ↦ value []
  | some b1 ↦ do
    out ← open_security security b1
    elim out [ none ↦ value [] | some b2 ↦ read_loop (length b2) b2 ]
]

-- `bb.Extend(n)`, and the bytes that are then stored in what it returns.
unfoldable pub extend : ℕ → List ℕ → List ℕ → Go (List ℕ)
extend n bb bytes = if ltb buffer_size (length bb + n) then panic else value (bb ++ bytes)

unfoldable pub write_header : Option ℕ → List ℕ → Go (List ℕ)
write_header none header_bytes = value []
write_header (some size) header_bytes = extend size [] header_bytes

unfoldable pub write_security : Option Aead → List ℕ → List ℕ → List ℕ → Go (List ℕ)
write_security none nonce bb b = value (bb ++ take (buffer_size - length bb) b)
write_security (some a) nonce bb b = do
  with_nonce ← extend a.nonce_size bb nonce
  extend (a.overhead + length b) with_nonce (a.seal (buffer_size - length with_nonce) nonce b)

-- `KCPPacketWriter.Write`: the bytes handed to the socket, with the header's bytes and the nonce
-- that the random source gave.
unfoldable pub write_packet : Option ℕ → Option Aead → List ℕ → List ℕ → List ℕ → Go (List ℕ)
write_packet header security header_bytes nonce b = do
  bb ← write_header header header_bytes
  write_security security nonce bb b

-- `KCPPacketWriter.Overhead`
unfoldable pub overhead : Option ℕ → Option Aead → ℕ
overhead none none = 0
overhead none (some a) = a.overhead
overhead (some size) none = size
overhead (some size) (some a) = size + a.overhead

unfoldable pub serialize_all : List Segment → List ℕ
serialize_all [] = []
serialize_all (s ∷ segs) = serialize s ++ serialize_all segs
