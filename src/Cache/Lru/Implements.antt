-- ===== src/Cache/Lru/Implements.antt =====
-- The cache keeps its promise, for a user that puts new keys with new values.
pub mod Moves
pub mod Puts
pub mod Calls
pub mod Fills
use gzv2ray_v.Prelude.{ℕ, zero, suc, none, some, Option, ◌≡◌, List, ◌<◌, map, All, length, ◌≤◌}
use gzv2ray_v.Cache.Lru.{Lru, LruElement}
use gzv2ray_v.Cache.Lru.Elements.{Entry, find, Unique}
use gzv2ray_v.Prelude.Dict.{lookup}

abbrev pub by_address : Entry → ℕ
by_address e = e.address

abbrev pub by_key : Entry → ℕ
by_key e = e.key

abbrev pub by_held : Entry → ℕ
by_held e = e.held

abbrev pub address_of : Option Entry → Option ℕ
address_of none = none
address_of (some e) = some e.address

abbrev pub Points : Lru → Entry → Type 0
Points l e =
    (lookup e.address l.elements ≡ some (record { key = e.key; held = e.held }))
    × (e.address < l.fresh)

-- The cache holds these entries in this order: the list, the elements and both maps agree, and no
-- two entries share an address, a key or a value.
pub record Holds (l : Lru) (es : List Entry) : Type 0 where
  pub linked : l.linked ≡ map by_address es
  pub points : All (Points l) es
  pub keyed : (k : ℕ) → lookup k l.key_to_element ≡ address_of (find by_key k es)
  pub valued : (v : ℕ) → lookup v l.value_to_element ≡ address_of (find by_held v es)
  pub addresses : Unique by_address es
  pub keys : Unique by_key es
  pub values : Unique by_held es

abbrev pub pair : Entry → ℕ × ℕ
pair e = (e.key, e.held)

-- A call has the answer and leaves the pairs that the promise says, and no more of them than the
-- capacity.
pub record Answers (out : Option ℕ × Lru) (said : Option ℕ × List (ℕ × ℕ)) (capacity : ℕ)
    : Type 0 where
  pub entries : List Entry
  pub holds : Holds out.1 entries
  pub answer : out.0 ≡ said.0
  pub shows : map pair entries ≡ said.1
  pub bounded : length entries ≤ capacity
  pub same_capacity : out.1.capacity ≡ capacity
