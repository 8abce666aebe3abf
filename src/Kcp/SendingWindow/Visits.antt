-- ===== src/Kcp/SendingWindow/Visits.antt =====
-- The two visits of the window, by a fast acknowledgement and by a flush: they change the sender's
-- bookkeeping and no number or payload.
use gzv2ray_v.Prelude.{
  ℕ, ◌≡◌, ◌==◌, suc, inl, inr, refl, arith, [], Bool-cases, ◌∷◌, List, length, ◌||◌, ap, ltb, ◌&&◌,
  ◌/◌,
}
use gzv2ray_v.Kcp.Go.{sub_u32}
use gzv2ray_v.Kcp.Segment.{DataSegment}
use gzv2ray_v.Kcp.SendingWindow.{fast_ack_cache}
use gzv2ray_v.Kcp.SendingWindow.Order.{Ascending, Below, payload}

-- The same numbers and payloads in the same order.
abbrev pub Alike : List DataSegment → List DataSegment → Type 0
Alike [] [] = Unit
Alike (s ∷ c) (s' ∷ c') = (s'.number ≡ s.number) × (s'.payload ≡ s.payload) × Alike c c'
Alike _ _ = ⊥

pub Alike-refl : (c : List DataSegment) → Alike c c
Alike-refl [] = tt
Alike-refl (s ∷ c) = (refl, refl, Alike-refl c)

pub Alike-Ascending :
    (lo : ℕ) (c c' : List DataSegment) → Alike c c' → Ascending lo c → Ascending lo c'
Alike-Ascending lo [] [] k a = tt
Alike-Ascending lo [] (s' ∷ c') k a = absurd k
Alike-Ascending lo (s ∷ c) [] k a = absurd k
Alike-Ascending lo (s ∷ c) (s' ∷ c') k a =
    (omega arith, rw k.0 (Alike-Ascending (suc s.number) c c' k.2 a.1))

pub Alike-Below : (hi : ℕ) (c c' : List DataSegment) → Alike c c' → Below hi c → Below hi c'
Alike-Below hi [] [] k b = tt
Alike-Below hi [] (s' ∷ c') k b = absurd k
Alike-Below hi (s ∷ c) [] k b = absurd k
Alike-Below hi (s ∷ c) (s' ∷ c') k b = (omega arith, Alike-Below hi c c' k.2 b.1)

pub payload-Alike : (n : ℕ) (c c' : List DataSegment) → Alike c c' → payload n c' ≡ payload n c
unfolding payload
payload-Alike n [] [] k = refl
payload-Alike n [] (s' ∷ c') k = absurd k
payload-Alike n (s ∷ c) [] k = absurd k
payload-Alike n (s ∷ c) (s' ∷ c') k = rw (k.0, k.1, payload-Alike n c c' k.2)

pub length-Alike : (c c' : List DataSegment) → Alike c c' → length c' ≡ length c
length-Alike [] [] k = refl
length-Alike [] (s' ∷ c') k = absurd k
length-Alike (s ∷ c) [] k = absurd k
length-Alike (s ∷ c) (s' ∷ c') k = ap suc (length-Alike c c' k.2)

pub fast_ack_cache-Alike :
    (c : List DataSegment) (number rto : ℕ) → Alike c (fast_ack_cache c number rto)
unfolding fast_ack_cache
fast_ack_cache-Alike [] number rto = tt
fast_ack_cache-Alike (s ∷ c) number rto =
    elim (Bool-cases (number == s.number || ltb 0x7FFFFFFF (sub_u32 number s.number))) [
      | inl stop ↦ rw stop (refl, refl, Alike-refl c)
      | inr go ↦ rw go (elim (Bool-cases (ltb 0 s.transmit && ltb (rto / 3) s.timeout)) [
        | inl cut ↦ rw cut (refl, refl, fast_ack_cache-Alike c number rto)
        | inr keep ↦ rw keep (refl, refl, fast_ack_cache-Alike c number rto)
      ])
    ]
