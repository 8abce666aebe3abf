-- ===== src/Protocol/Servers.antt =====
-- common/protocol/server_picker.go: the list of servers and the round-robin picker. What
-- `ServerSpec.IsValid` answers during one call is a function.
pub mod Valid
mod Tests
use gzv2ray_v.Prelude.{
  ℕ, zero, suc, none, some, [], ◌∷◌, List, Bool, Option, ◌++◌, length, ◌-◌, if◌then◌else◌, take,
  leb, set, ◌+◌,
}

module _ {ℓ} {S : Type ℓ} where
  -- An index into the slice.
  abbrev pub at : ℕ → List S → Option S
  at i [] = none
  at zero (server ∷ servers) = some server
  at (suc i) (server ∷ servers) = at i servers

  unfoldable pub add_server : List S → S → List S
  add_server servers server = servers ++ (server ∷ [])

  -- The last server takes the place of the one at the index.
  unfoldable pub remove_server : List S → ℕ → List S
  remove_server servers i = elim (at (length servers - 1) servers) [
    | none ↦ servers
    | some last ↦ take (length servers - 1) (set servers i last)
  ]

  -- The loop of `GetServer`, each round of which that goes on removes a server.
  unfoldable pub get_loop : (S → Bool) → ℕ → List S → ℕ → List S × Option S
  unfolding remove_server
  get_loop is_valid zero servers i = (servers, none)
  get_loop is_valid (suc fuel) servers i =
      let rest = get_loop is_valid fuel (remove_server servers i) i in
      elim (at i servers) [
        | none ↦ (servers, none)
        | some server ↦ if is_valid server then (servers, some server) else rest
      ]

  unfoldable pub get_server : (S → Bool) → List S → ℕ → List S × Option S
  unfolding get_loop
  get_server is_valid servers i = get_loop is_valid (suc (length servers)) servers i

  -- `PickServer`: the list, the next index, and the server.
  unfoldable pub pick_server : (S → Bool) → List S → ℕ → List S × ℕ × Option S
  unfolding get_server
  pick_server is_valid servers next =
      let (servers1, found) = get_server is_valid servers next in
      let (servers2, found2) = get_server is_valid servers1 0 in
      elim found [
        | some server ↦
            (servers1, (if leb (length servers1) (next + 1) then 0 else next + 1), some server)
        | none ↦ (servers2, (if leb (length servers2) 1 then 0 else 1), found2)
      ]
