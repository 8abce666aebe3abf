-- ===== src/Mux/Session/Tests.antt =====
-- The theorems on common/mux/session.go at concrete inputs.
use gzv2ray_v.Prelude.{
  some, none, ◌++◌, ℕ, suc, true, refl, arith, [], ◌∷◌, List, ◌+◌, ◌≡◌, length, ◌<◌, ◌^◌,
}
use gzv2ray_v.Mux.Session.{Session, SessionManager, new_session_manager, get, close}
use gzv2ray_v.Mux.Session.Closed.{Closes, closing_ends}
use gzv2ray_v.Mux.Session.Numbers.{run-numbers}
use gzv2ray_v.Mux.Session.Calls.{
  IsValid, Call, allocate_call, remove_call, close_if_no_session_call, close_call, run, add_call,
  close_session_call, call, numbers_from,
}

abbrev calls : List Call
calls =
    allocate_call
    ∷ allocate_call
    ∷ remove_call 1
    ∷ close_if_no_session_call
    ∷ allocate_call
    ∷ close_call
    ∷ allocate_call
    ∷ []

fresh-IsValid : IsValid new_session_manager
unfolding new_session_manager gzv2ray_v.Prelude.Dict.lookup
fresh-IsValid = record { own = λ id s e. absurd (cc e); counted = λ id s e. absurd (cc e) }

calls_bound : new_session_manager.count + length (run calls new_session_manager).1 < 2 ^ 16
unfolding run new_session_manager gzv2ray_v.Mux.Session.allocate
    gzv2ray_v.Mux.Session.close_if_no_session gzv2ray_v.Mux.Session.remove
    gzv2ray_v.Prelude.Dict.delete gzv2ray_v.Prelude.Dict.insert gzv2ray_v.Mux.Session.close
calls_bound = omega arith

run-numbers_example :
    let (m', ids) = run calls new_session_manager in
    IsValid m'
    × (m'.count ≡ new_session_manager.count + length ids)
    × (ids ≡ numbers_from (suc new_session_manager.count) (length ids))
run-numbers_example =
    run-numbers calls new_session_manager (tt, (tt, (tt, (tt, (tt, (tt, (tt, tt))))))) fresh-IsValid
      calls_bound

-- A server: its only session goes, the manager ends, and what it adds then is not kept.
abbrev added : Session
added = record { input = some 10; output = some 11; id = 7 }

abbrev earlier : List Call
earlier = add_call added ∷ close_session_call added ∷ []

earlier-Closes : Closes close_if_no_session_call (run earlier new_session_manager).0
unfolding run new_session_manager gzv2ray_v.Mux.Session.add gzv2ray_v.Mux.Session.remove
    gzv2ray_v.Mux.Session.close_session gzv2ray_v.Mux.Session.close_if_no_session
    gzv2ray_v.Prelude.Dict.insert gzv2ray_v.Prelude.Dict.delete
earlier-Closes = refl

closing_ends_example :
    let (m, ids) = run earlier new_session_manager in
    let m' = (call close_if_no_session_call m).0 in
    (run
        (earlier ++ (close_if_no_session_call ∷ add_call added ∷ allocate_call ∷ []))
        new_session_manager
      ≡ (m', ids))
    × (m'.closed ≡ true)
    × (m'.sessions ≡ [])
    × ((id : ℕ) → get m' id ≡ none)
    × ((close m').1 ≡ [])
closing_ends_example =
    closing_ends earlier (add_call added ∷ allocate_call ∷ []) close_if_no_session_call
      earlier-Closes
