-- ===== src/Kcp/RoundTripInfo/Smoothing.antt =====
-- RoundTripInfo.Update beside the formula that it computes, written out on numbers that do not wrap.
use gzv2ray_v.Prelude.{
  ℕ, ◌<◌, if◌then◌else◌, min, ◌==◌, ◌+◌, ◌≡◌, ◌/◌, max, ltb, ◌≤◌, ◌*◌, ◌-◌, inl, inr, refl, arith,
  Bool-cases, le→ltb_false, ◌∙◌, ap,
}
use gzv2ray_v.Kcp.RoundTripInfo.{RoundTripInfo, smooth, timeout_of, update}

-- Estimates of measurements below ten seconds, with a clock of at most ten seconds.
pub record IsValid (info : RoundTripInfo) : Type 0 where
  pub variation : info.variation < 10000
  pub srtt : info.srtt < 10000
  pub min_rtt : info.min_rtt < 10000

-- The smoothing as a formula on numbers, without wrapping round.
unfoldable pub smoothed_variation : RoundTripInfo → ℕ → ℕ
smoothed_variation info rtt =
    if info.srtt == 0
    then rtt / 2
    else (3 * info.variation + ((rtt - info.srtt) + (info.srtt - rtt))) / 4

unfoldable pub smoothed_rtt : RoundTripInfo → ℕ → ℕ
smoothed_rtt info rtt = if info.srtt == 0 then rtt else max info.min_rtt ((7 * info.srtt + rtt) / 8)

unfoldable pub retransmission_timeout : ℕ → ℕ → ℕ → ℕ
retransmission_timeout min_rtt srtt variation =
    min 10000 (srtt + (if ltb min_rtt (4 * variation) then 4 * variation else variation)) * 5 / 4

smooth-IsValid :
    (info : RoundTripInfo) (rtt : ℕ)
    → IsValid info
    → rtt < 10000
    → IsValid (smooth info rtt)
      × ((smooth info rtt).variation ≡ smoothed_variation info rtt)
      × ((smooth info rtt).srtt ≡ smoothed_rtt info rtt)
      × ((smooth info rtt).min_rtt ≡ info.min_rtt)
unfolding smooth smoothed_variation smoothed_rtt
smooth-IsValid info rtt v h = elim (Bool-cases (info.srtt == 0)) [
  | inl e ↦ rw e (
    record { variation = omega arith; srtt = omega arith; min_rtt = v.min_rtt },
    refl,
    refl,
    refl,
  )
  | inr e ↦ rw e (
    record { variation = ground arith; srtt = ground arith; min_rtt = v.min_rtt },
    ground arith,
    ground arith,
    refl,
  )
]

timeout_of-IsValid :
    (info : RoundTripInfo)
    → IsValid info
    → (timeout_of info ≡ retransmission_timeout info.min_rtt info.srtt info.variation)
      × (timeout_of info ≤ 12500)
unfolding timeout_of retransmission_timeout
timeout_of-IsValid info v = ground arith

update_taken :
    (info : RoundTripInfo) (rtt current : ℕ)
    → rtt < 10000
    → update info rtt current
      ≡ record (smooth info rtt) { rto = timeout_of (smooth info rtt); updated_timestamp = current }
unfolding update
update_taken info rtt current h = simp (le→ltb_false 0x7FFFFFFF rtt (omega arith))

-- For an estimate and a measurement below ten seconds (`ProcessSegment` reports no other
-- measurement), `Update` computes the smoothed estimates and the timeout without any arithmetic
-- wrapping round, keeps the estimate in range, and sets a timeout of at most 12.5 seconds.
pub update-smooths :
    (info : RoundTripInfo) (rtt current : ℕ)
    → IsValid info
    → rtt < 10000
    → let info' = update info rtt current in
      IsValid info'
      × (info'.variation ≡ smoothed_variation info rtt)
      × (info'.srtt ≡ smoothed_rtt info rtt)
      × (info'.rto ≡ retransmission_timeout info.min_rtt info'.srtt info'.variation)
      × (info'.rto ≤ 12500)
update-smooths info rtt current v h =
    let (u, e1, e2, e3) = smooth-IsValid info rtt v h in
    let (t, l) = timeout_of-IsValid (smooth info rtt) u in
    rw (update_taken info rtt current h) (
      record { variation = u.variation; srtt = u.srtt; min_rtt = u.min_rtt },
      e1,
      e2,
      t ∙ ap (λ m. retransmission_timeout m (smooth info rtt).srtt (smooth info rtt).variation) e3,
      l,
    )
