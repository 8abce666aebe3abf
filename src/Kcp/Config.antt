-- ===== src/Kcp/Config.antt =====
-- transport/internet/kcp/config.go: the sizes that a connection takes from its configuration. A nil
-- pointer is `none`.
use native.Mathlib.Nat.{div-lt_iff_lt-mul, le-div_iff_mul-le, div-le_self}
use gzv2ray_v.Prelude.{
  ℕ, zero, suc, none, some, refl, arith, Option, ◌*◌, ◌/◌, ◌<◌, ◌≤◌, Bool, ◌%◌, ◌≡◌, ◌^◌,
  if◌then◌else◌, ltb,
}
use gzv2ray_v.Kcp.Go.{Go, value, panic, ◌>>=◌}

pub record Config : Type 0 where
  pub mtu : Option ℕ
  pub tti : Option ℕ
  pub uplink_capacity : Option ℕ
  pub downlink_capacity : Option ℕ
  pub write_buffer : Option ℕ
  pub read_buffer : Option ℕ
  pub congestion : Bool

unfoldable pub get_mtu_value : Config → ℕ
get_mtu_value c = elim c.mtu as (λ o. ℕ) [ some n ↦ n | none ↦ 1350 ]

unfoldable pub get_tti_value : Config → ℕ
get_tti_value c = elim c.tti as (λ o. ℕ) [ some n ↦ n | none ↦ 50 ]

unfoldable pub get_uplink_capacity_value : Config → ℕ
get_uplink_capacity_value c = elim c.uplink_capacity as (λ o. ℕ) [ some n ↦ n | none ↦ 5 ]

unfoldable pub get_downlink_capacity_value : Config → ℕ
get_downlink_capacity_value c = elim c.downlink_capacity as (λ o. ℕ) [ some n ↦ n | none ↦ 20 ]

unfoldable pub get_write_buffer_size : Config → ℕ
get_write_buffer_size c = elim c.write_buffer as (λ o. ℕ) [ some n ↦ n | none ↦ 2 * 1024 * 1024 ]

unfoldable pub get_read_buffer_size : Config → ℕ
get_read_buffer_size c = elim c.read_buffer as (λ o. ℕ) [ some n ↦ n | none ↦ 2 * 1024 * 1024 ]

-- Go's division of unsigned integers, which panics on zero.
unfoldable pub divide : ℕ → ℕ → Go ℕ
divide a zero = panic
divide a (suc b) = value (a / suc b)

-- `GetSendingInFlightSize` and `GetReceivingInFlightSize`, which differ in the capacity.
unfoldable pub in_flight_size : ℕ → Config → Go ℕ
in_flight_size capacity c = do
  packets ← divide (capacity * 1024 % 2 ^ 32 * 1024 % 2 ^ 32) (get_mtu_value c)
  rounds ← divide 1000 (get_tti_value c)
  size ← divide packets rounds
  value (if ltb size 8 then 8 else size)

unfoldable pub get_sending_in_flight_size : Config → Go ℕ
unfolding in_flight_size
get_sending_in_flight_size c = in_flight_size (get_uplink_capacity_value c) c

unfoldable pub get_receiving_in_flight_size : Config → Go ℕ
unfolding in_flight_size
get_receiving_in_flight_size c = in_flight_size (get_downlink_capacity_value c) c

unfoldable pub get_sending_buffer_size : Config → Go ℕ
get_sending_buffer_size c = divide (get_write_buffer_size c) (get_mtu_value c)

unfoldable pub get_receiving_buffer_size : Config → Go ℕ
get_receiving_buffer_size c = divide (get_read_buffer_size c) (get_mtu_value c)

divide_pos : (a b : ℕ) → 0 < b → divide a b ≡ value (a / b)
unfolding divide
divide_pos a zero h = absurd (omega arith)
divide_pos a (suc b) h = refl

-- With an MTU of at least 2 and an interval of 1 to 1000 ms, the size of the flight is computed
-- without a division by zero, whatever the capacity, and is at least 8 and below 2^31.
pub in_flight_size-value :
    (capacity : ℕ) (c : Config)
    → 2 ≤ get_mtu_value c
    → 1 ≤ get_tti_value c
    → get_tti_value c ≤ 1000
    → (size : ℕ) × (in_flight_size capacity c ≡ value size) × (8 ≤ size) × (size < 2 ^ 31)
unfolding in_flight_size
in_flight_size-value capacity c h1 h2 h3 =
    let bits = capacity * 1024 % 2 ^ 32 * 1024 % 2 ^ 32 in
    let m = get_mtu_value c in
    let packets = bits / m in
    let rounds = 1000 / get_tti_value c in
    let small : packets < 2 ^ 31 =
      (div-lt_iff_lt-mul {k = m} {x = bits} {y = 2 ^ 31} (omega arith)).1 (omega arith) in
    let some_rounds : 1 ≤ rounds =
      (le-div_iff_mul-le {k = get_tti_value c} {x = 1} {y = 1000} (omega arith)).1 (omega arith) in
    let size = packets / rounds in
    let le : size ≤ packets = div-le_self packets rounds in
    (
      if ltb size 8 then 8 else size,
      simp (
        divide_pos bits m (omega arith),
        divide_pos 1000 (get_tti_value c) (omega arith),
        divide_pos packets rounds (omega arith),
      ),
      ground arith,
      ground arith,
    )
