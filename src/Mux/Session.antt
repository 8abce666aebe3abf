-- ===== src/Mux/Session.antt =====
-- common/mux/session.go: SessionManager, the table of the sessions of one connection. Each method
-- of the manager holds its lock and is one step; `Close` of a session closes its reader and writer
-- first and takes the lock in Remove. A session's reader and writer are handles, and
-- what a method closes is returned as their list, in the order of the table.
pub mod Calls
pub mod Numbers
pub mod Closed
mod Tests
use gzv2ray_v.Prelude.{
  ℕ, true, false, none, some, [], ◌∷◌, Option, List, length, if◌then◌else◌, Bool, ◌+◌, ◌==◌, ◌++◌,
  ◌%◌, ◌^◌,
}
use gzv2ray_v.Prelude.Dict.{lookup, insert, delete}

-- `parent` is the manager that has the session; a nil interface is `none`.
pub record Session : Type 0 where
  pub input : Option ℕ
  pub output : Option ℕ
  pub id : ℕ

pub record SessionManager : Type 0 where
  pub sessions : List (ℕ × Session)
  pub count : ℕ
  pub closed : Bool

unfoldable pub new_session_manager : SessionManager
new_session_manager = record { sessions = []; count = 0; closed = false }

unfoldable pub size : SessionManager → ℕ
size m = length m.sessions

-- `count` is a `uint16`.
unfoldable pub allocate : SessionManager → SessionManager × Option Session
allocate m =
    if m.closed
    then (m, none)
    else let count = (m.count + 1) % 2 ^ 16 in
      let s : Session = record { input = none; output = none; id = count } in
      (record m { count = count; sessions = insert count s m.sessions }, some s)

unfoldable pub add : SessionManager → Session → SessionManager
add m s =
    if m.closed
    then m
    else record m { count = (m.count + 1) % 2 ^ 16; sessions = insert s.id s m.sessions }

unfoldable pub remove : SessionManager → ℕ → SessionManager
remove m id = if m.closed then m else record m { sessions = delete id m.sessions }

unfoldable pub get : SessionManager → ℕ → Option Session
get m id = if m.closed then none else lookup id m.sessions

unfoldable pub close_if_no_session : SessionManager → SessionManager × Bool
close_if_no_session m =
    if m.closed
    then (m, true)
    else if length m.sessions == 0
    then (record m { closed = true }, true)
    else (m, false)

-- `common.Close` of an interface, which does nothing on nil.
unfoldable pub handle : Option ℕ → List ℕ
handle none = []
handle (some h) = h ∷ []

unfoldable pub handles : List (ℕ × Session) → List ℕ
unfolding handle
handles [] = []
handles ((id, s) ∷ sessions) = handle s.input ++ (handle s.output ++ handles sessions)

-- `Close` of the manager.
unfoldable pub close : SessionManager → SessionManager × List ℕ
unfolding handles
close m =
    if m.closed then (m, []) else (record m { closed = true; sessions = [] }, handles m.sessions)

-- `Close` of a session of the manager.
unfoldable pub close_session : SessionManager → Session → SessionManager × List ℕ
unfolding handle remove
close_session m s = (remove m s.id, handle s.output ++ handle s.input)
