-- ===== src/Kcp/Connection/Tests.antt =====
-- The theorems on transport/internet/kcp/connection.go at concrete inputs.
use gzv2ray_v.Kcp.Config.{Config, in_flight_size, in_flight_size-value}
use gzv2ray_v.Kcp.RoundTripInfo.{RoundTripInfo, update}
use gzv2ray_v.Kcp.Connection.Ends.{
  flush_all, AllDue, flush_all-terminates, flush-peer_closed, flush-skips_terminating,
}
use gzv2ray_v.Kcp.Connection.Steps.{Reaches, by_close, started}
use gzv2ray_v.Kcp.Connection.{
  active, ready_to_close, peer_closed, terminating, peer_terminating, terminated, State, Connection,
  new_connection, flush, RoundTripInfo,
}
use gzv2ray_v.Kcp.Sending
use gzv2ray_v.Kcp.Go.{value}
use gzv2ray_v.Kcp.RoundTripInfo.Smoothing.{
  IsValid, update-smooths, smoothed_variation, smoothed_rtt, retransmission_timeout,
}
use gzv2ray_v.Kcp.Connection.Life.{
  Call, call, write_call, close_call, flush_call, terminate_call, run, run-Reaches,
}
use gzv2ray_v.Prelude.{
  ℕ, true, inl, inr, none, some, refl, arith, [], ◌∷◌, List, ◌≡◌, ◌≤◌, ◌<◌, ◌^◌,
}

-- A clock that reads the same in one call.
abbrev at : ℕ → State → ℕ
at now s = now

abbrev fresh : Connection
fresh = new_connection 7 true 8 100 100 50

abbrev calls : List (Call × ℕ × (State → ℕ))
calls =
    (write_call (1 ∷ []), 5, at 5)
    ∷ (close_call, 6, at 6)
    ∷ (flush_call, 10, at 10)
    ∷ (terminate_call, 11, at 11)
    ∷ []

run-Reaches_example :
    let c = run fresh calls in
    let c' = call c close_call 12 (at 12) in
    Reaches by_close c.state c'.state × (c'.terminations ≡ started c'.state)
run-Reaches_example = run-Reaches 7 8 100 100 50 true calls close_call 12 (at 12)

-- The peer is silent from the start.
abbrev flushes : List (ℕ × (State → ℕ))
flushes = (30000, at 30000) ∷ (38001, at 38001) ∷ (38002, at 38002) ∷ (38003, at 38003) ∷ []

flushes-AllDue : AllDue fresh flushes
unfolding flush new_connection gzv2ray_v.Kcp.Connection.set_state
    gzv2ray_v.Kcp.SendingWindow.is_empty
flushes-AllDue = (inr refl, (inr refl, (inl refl, (inl refl, tt))))

flush_all-terminates_example : (flush_all fresh flushes).state ≡ terminated
flush_all-terminates_example = flush_all-terminates fresh flushes flushes-AllDue (omega arith)

abbrev left_open : Connection
left_open = record fresh { state = peer_closed }

flush-peer_closed_example : (flush left_open 1000000 (at 1000000)).state ≡ peer_closed
flush-peer_closed_example = flush-peer_closed left_open 1000000 (at 1000000) refl

abbrev closed_here : Connection
closed_here = record fresh { state = ready_to_close }

closed_here_empty : Sending.is_empty closed_here.sending_worker ≡ true
unfolding Sending.is_empty new_connection gzv2ray_v.Kcp.SendingWindow.is_empty
closed_here_empty = refl

flush-skips_terminating_example : (flush closed_here 500 (at 501)).state ≡ terminated
flush-skips_terminating_example =
    flush-skips_terminating closed_here 500 (at 501) refl closed_here_empty (omega arith)
      (omega arith)

abbrev info : RoundTripInfo
info = record { variation = 40; srtt = 200; rto = 300; min_rtt = 50; updated_timestamp = 0 }

info-IsValid : IsValid info
info-IsValid = record { variation = omega arith; srtt = omega arith; min_rtt = omega arith }

update-smooths_example :
    let info' = update info 180 1000 in
    IsValid info'
    × (info'.variation ≡ smoothed_variation info 180)
    × (info'.srtt ≡ smoothed_rtt info 180)
    × (info'.rto ≡ retransmission_timeout 50 info'.srtt info'.variation)
    × (info'.rto ≤ 12500)
update-smooths_example = update-smooths info 180 1000 info-IsValid (omega arith)

abbrev config : Config
config = record {
  mtu = some 1350;
  tti = none;
  uplink_capacity = none;
  downlink_capacity = some 100;
  write_buffer = none;
  read_buffer = none;
  congestion = true;
}

in_flight_size-value_example :
    (size : ℕ) × (in_flight_size 100 config ≡ value size) × (8 ≤ size) × (size < 2 ^ 31)
unfolding gzv2ray_v.Kcp.Config.get_mtu_value gzv2ray_v.Kcp.Config.get_tti_value
in_flight_size-value_example =
    in_flight_size-value 100 config (omega arith) (omega arith) (omega arith)
