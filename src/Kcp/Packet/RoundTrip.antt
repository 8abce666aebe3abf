-- ===== src/Kcp/Packet/RoundTrip.antt =====
-- The packet reader terminates, and reads back what the packet writer wrote.
use gzv2ray_v.Prelude.{
  ℕ, zero, suc, inl, inr, none, some, refl, arith, [], ◌∷◌, Option, List, ◌<◌, ◌≡◌, length, ◌⊎◌,
  ◌≤◌, All, map, pos→==_false, ◌+◌, ◌++◌, length-append, ◌∙◌,
}
use gzv2ray_v.Kcp.Go.{Go, value, ◌>>=◌}
use gzv2ray_v.Kcp.Segment.{Segment, data_segment, ack_segment, cmd_segment, serialize, byte_size}
use gzv2ray_v.Kcp.Segment.RoundTrip.{Fits, on_wire, read_segment-serialize, length-serialize}
use gzv2ray_v.Kcp.Segment.Safety.{Safe, rejected, parsed, read_segment-Safe}
use gzv2ray_v.Kcp.Packet.{
  Aead, read_loop, strip_header, open_security, read_packet, write_packet, serialize_all, overhead,
}
use gzv2ray_v.Kcp.Packet.Layers.{
  IsSecurity, header_size, sealed_room, nonce_size, HasSize, HasNonce, strip-write_header,
  open-write_security, sealed_pos,
}

-- What a safe result is: a rejection, or a segment with its rest.
Safe-cases :
    {n : ℕ} {r : Go (Option (Segment × List ℕ))}
    → Safe n r
    → (r ≡ value none)
      ⊎ ((s : Segment) × (rest : List ℕ) × (r ≡ value (some (s, rest))) × (length rest ≤ n))
Safe-cases rejected = inl refl
Safe-cases (parsed {s} {rest} h) = inr (s, rest, refl, h)

-- With as much fuel as there are bytes, the reading loop of a packet comes to its end, and no round
-- panics.
pub read_loop_total :
    (fuel : ℕ) (b : List ℕ)
    → length b ≤ fuel
    → (segs : List Segment) × (read_loop fuel b ≡ value segs)
unfolding read_loop
read_loop_total zero [] h = ([], refl)
read_loop_total (suc fuel) [] h = ([], refl)
read_loop_total zero (x ∷ b) h = absurd (omega arith)
read_loop_total (suc fuel) (x ∷ b) h = elim (Safe-cases (read_segment-Safe (x ∷ b))) [
  | inl e ↦ ([], simp (pos→==_false (length (x ∷ b)) (omega arith), e))
  | inr (s, rest, e, l) ↦
      let (segs, ih) = read_loop_total fuel rest (omega arith) in
      (s ∷ segs, simp (pos→==_false (length (x ∷ b)) (omega arith), e, ih))
]

byte_size_pos : (s : Segment) → 0 < byte_size s
unfolding byte_size
byte_size_pos (data_segment s) = omega arith
byte_size_pos (ack_segment s) = omega arith
byte_size_pos (cmd_segment s) = omega arith

length-serialize_all-cons :
    (s : Segment) (segs : List Segment)
    → length (serialize_all (s ∷ segs)) ≡ byte_size s + length (serialize_all segs)
unfolding serialize_all
length-serialize_all-cons s segs =
    omega (arith, length-append (serialize s) (serialize_all segs), length-serialize s)

length-serialize_all_pos : (segs : List Segment) → 0 < length segs → 0 < length (serialize_all segs)
length-serialize_all_pos [] h = absurd (omega arith)
length-serialize_all_pos (s ∷ segs) h =
    omega (arith, byte_size_pos s, length-serialize_all-cons s segs)

read_loop-serialize_all :
    (fuel : ℕ) (segs : List Segment)
    → length (serialize_all segs) ≤ fuel
    → All Fits segs
    → read_loop fuel (serialize_all segs) ≡ value (map on_wire segs)
unfolding read_loop serialize_all
read_loop-serialize_all zero [] h f = refl
read_loop-serialize_all (suc fuel) [] h f = refl
read_loop-serialize_all zero (s ∷ segs) h f =
    absurd (omega (arith, byte_size_pos s, length-serialize_all-cons s segs))
read_loop-serialize_all (suc fuel) (s ∷ segs) h f = simp (
  pos→==_false (length (serialize s ++ serialize_all segs))
      (omega (arith, byte_size_pos s, length-serialize_all-cons s segs)),
  read_segment-serialize s (serialize_all segs) f.0,
  read_loop-serialize_all fuel segs
      (omega (arith, byte_size_pos s, length-serialize_all-cons s segs)) f.1,
)

read_packet_layers :
    (header : Option ℕ) (security : Option Aead) (b b1 b2 : List ℕ)
    → strip_header header b ≡ some b1
    → open_security security b1 ≡ value (some b2)
    → read_packet header security b ≡ read_loop (length b2) b2
unfolding read_packet
read_packet_layers header security b b1 b2 e1 e2 = rw (e1, e2, read_packet)

-- Under an AEAD that opens what it sealed, with a header's bytes and a nonce of the sizes declared,
-- a datagram of one or more segments that fit and whose sealing has room in one buffer is written
-- without panic, and the reader returns exactly these segments in order, less the sender's
-- bookkeeping.
pub read_packet-write_packet :
    (header : Option ℕ) (security : Option Aead) (law : IsSecurity security)
    (header_bytes nonce : List ℕ) (segs : List Segment)
    → HasSize header header_bytes
    → HasNonce security nonce
    → All Fits segs
    → 0 < length segs
    → header_size header + sealed_room security law (length (serialize_all segs)) ≤ 2048
    → (write_packet header security header_bytes nonce (serialize_all segs)
        >>= read_packet header security)
      ≡ value (map on_wire segs)
unfolding write_packet
read_packet-write_packet header security law hb nonce segs hs hn fits p l =
    let (bb, e1, stripped, l1) = strip-write_header header hb hs (omega arith) in
    let (sealed, e2, opened, l2) =
      open-write_security header security law nonce bb (serialize_all segs) hn
        (length-serialize_all_pos segs p) (omega (arith, l1)) in
    simp (e1, e2)
      (read_packet_layers header security (bb ++ sealed) sealed (serialize_all segs)
          (stripped sealed (
            sealed_pos header security (length (serialize_all segs)) (length sealed) l2
              (length-serialize_all_pos segs p)))
          opened
        ∙ read_loop-serialize_all (length (serialize_all segs)) segs (omega arith) fits)

-- A datagram that has room in one buffer is longer than its segments by the writer's `Overhead` and
-- by the nonce, which `Overhead` leaves out.
pub length-write_packet :
    (header : Option ℕ) (security : Option Aead) (law : IsSecurity security)
    (header_bytes nonce b : List ℕ)
    → HasSize header header_bytes
    → HasNonce security nonce
    → 0 < length b
    → header_size header + sealed_room security law (length b) ≤ 2048
    → (datagram : List ℕ) × (write_packet header security header_bytes nonce b ≡ value datagram)
      × (length datagram ≡ overhead header security + nonce_size security + length b)
unfolding write_packet
length-write_packet header security law hb nonce b hs hn p l =
    let (bb, e1, stripped, l1) = strip-write_header header hb hs (omega arith) in
    let (sealed, e2, opened, l2) =
      open-write_security header security law nonce bb b hn p (omega (arith, l1)) in
    (bb ++ sealed, simp (e1, e2), omega (arith, length-append bb sealed, l1, l2))
