-- ===== src/Kcp/RoundTripInfo.antt =====
-- transport/internet/kcp/connection.go: RoundTripInfo, the estimate of the round trip time and the
-- timeout of retransmissions. The arithmetic is that of `uint32`.
pub mod Smoothing
use gzv2ray_v.Prelude.{ℕ, if◌then◌else◌, ◌*◌, ltb, ◌==◌, ◌%◌, ◌/◌, ◌^◌, ◌+◌}
use gzv2ray_v.Kcp.Go.{add_u32, sub_u32}

pub record RoundTripInfo : Type 0 where
  pub variation : ℕ
  pub srtt : ℕ
  pub rto : ℕ
  pub min_rtt : ℕ
  pub updated_timestamp : ℕ

unfoldable pub update_peer_rto : RoundTripInfo → ℕ → ℕ → RoundTripInfo
update_peer_rto info rto current =
    if ltb (sub_u32 current info.updated_timestamp) 3000
    then info
    else record info { updated_timestamp = current; rto = rto }

-- The first part of `Update`: `variation` and `srtt`.
unfoldable pub smooth : RoundTripInfo → ℕ → RoundTripInfo
smooth info rtt =
    if info.srtt == 0
    then record info { srtt = rtt; variation = rtt / 2 }
    else let delta = if ltb rtt info.srtt then sub_u32 info.srtt rtt else sub_u32 rtt info.srtt in
      let srtt = (7 * info.srtt + rtt) % 2 ^ 32 / 8 in
      record info {
        variation = (3 * info.variation + delta) % 2 ^ 32 / 4;
        srtt = if ltb srtt info.min_rtt then info.min_rtt else srtt;
      }

-- The second part: the timeout from these.
unfoldable pub timeout_of : RoundTripInfo → ℕ
timeout_of info =
    let spread = 4 * info.variation % 2 ^ 32 in
    let rto =
      if ltb info.min_rtt spread
      then add_u32 info.srtt spread
      else add_u32 info.srtt info.variation in
    (if ltb 10000 rto then 10000 else rto) * 5 % 2 ^ 32 / 4

unfoldable pub update : RoundTripInfo → ℕ → ℕ → RoundTripInfo
unfolding smooth timeout_of
update info rtt current =
    if ltb 0x7FFFFFFF rtt
    then info
    else let info' = smooth info rtt in
      record info' { rto = timeout_of info'; updated_timestamp = current }
