-- ===== src/Kcp/Crypt/Contract.antt =====
-- SimpleAuthenticator keeps the contract of cipher.AEAD.
use gzv2ray_v.Kcp.Packet.{IsAead}
use gzv2ray_v.Kcp.Crypt.{
  simple_authenticator, seal_at, seal, padded, zeros, authenticated, unseal, value,
}
use gzv2ray_v.Kcp.Crypt.Opens.{unseal-seal, length-seal, length-authenticated}
use gzv2ray_v.Prelude.{
  ℕ, zero, suc, inl, inr, refl, arith, Bool-cases, length, ◌+◌, List, ◌≡◌, ◌/◌, ◌≤◌, ◌*◌, ◌-◌,
  le→ltb_false, ltb, ◌%◌, ◌==◌, ==_iff, length-append, some, ◌<◌, ◌^◌,
}

length-zeros : (n : ℕ) → length (zeros n) ≡ n
unfolding zeros
length-zeros zero = refl
length-zeros (suc n) = omega (arith, length-zeros n)

-- The length of a sealing before it is cut: up to the next multiple of 4.
abbrev pub whole_words : ℕ → ℕ
whole_words n = (n + 3) / 4 * 4

room_of_sealing :
    (plain : List ℕ) → length (padded (authenticated plain)) ≡ whole_words (6 + length plain)
unfolding padded
room_of_sealing plain =
    let d = authenticated plain in
    let xtra = 4 - length d % 4 in
    let n = length-authenticated plain in
    elim (Bool-cases (xtra == 4)) [
      | inl e ↦ rw e (omega (arith, n, (==_iff xtra 4).0 e))
      | inr e ↦ rw e (ground (arith, length-append d (zeros xtra), length-zeros xtra))
    ]

seal_at-room :
    (capacity : ℕ) (plain : List ℕ)
    → whole_words (6 + length plain) ≤ capacity
    → seal_at capacity plain ≡ seal plain
unfolding seal_at
seal_at-room capacity plain l = rw (room_of_sealing plain, le→ltb_false capacity _ l) refl

length-seal_at :
    (capacity : ℕ) (plain : List ℕ) → length (seal_at capacity plain) ≡ 6 + length plain
unfolding seal_at
length-seal_at capacity plain =
    elim (Bool-cases (ltb capacity (length (padded (authenticated plain))))) [
      | inl e ↦ rw e (length-authenticated plain)
      | inr e ↦ rw e (length-seal plain)
    ]

-- Whenever `dst` has room for the sealing in whole words, fewer than 2^16 plain bytes are sealed in
-- place: the memory of `dst` then holds 6 bytes more than these, and `Open` gives them back.
pub unseal-seal_at :
    (capacity : ℕ) (plain : List ℕ)
    → length plain < 2 ^ 16
    → whole_words (6 + length plain) ≤ capacity
    → (length (seal_at capacity plain) ≡ 6 + length plain)
      × (unseal (seal_at capacity plain) ≡ value (some plain))
unseal-seal_at capacity plain l room =
    (length-seal_at capacity plain, rw (seal_at-room capacity plain room) (unseal-seal plain l))

-- SimpleAuthenticator is an AEAD for `dst` slices that have room for whole words: what one buffer
-- can hold opens again, and a sealing is 6 bytes longer.
pub simple_authenticator-IsAead : IsAead simple_authenticator
unfolding simple_authenticator
simple_authenticator-IsAead = record {
  room = λ n. whole_words (6 + n);
  room_le = λ n. omega arith;
  unseal-seal =
      λ capacity nonce b l r. rw (seal_at-room capacity b r) (unseal-seal b (omega (arith, l)));
  length-seal = λ capacity nonce b. length-seal_at capacity b;
}

pub room-simple_authenticator : (n : ℕ) → simple_authenticator-IsAead.room n ≡ whole_words (6 + n)
unfolding simple_authenticator-IsAead
room-simple_authenticator n = refl
