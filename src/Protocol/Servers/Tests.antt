-- ===== src/Protocol/Servers/Tests.antt =====
-- The theorem on common/protocol/server_picker.go at a concrete input.
use gzv2ray_v.Prelude.{ℕ, ltb, [], ◌∷◌, Bool}
use gzv2ray_v.Protocol.Servers.{pick_server}
use gzv2ray_v.Protocol.Servers.Valid.{Picks, pick_server-Picks}

-- The servers are numbers, and those from 5 on are valid.
abbrev from_five : ℕ → Bool
from_five n = ltb 4 n

pick_server-Picks_example :
    Picks from_five (1 ∷ 7 ∷ 2 ∷ []) (pick_server from_five (1 ∷ 7 ∷ 2 ∷ []) 2)
pick_server-Picks_example = pick_server-Picks from_five (1 ∷ 7 ∷ 2 ∷ []) 2
