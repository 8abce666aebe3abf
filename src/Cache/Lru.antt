-- ===== src/Cache/Lru.antt =====
-- common/cache/lru.go: the cache of least recent use, as the calls of one goroutine see it. Keys and
-- values are told apart by equality alone, and stand as numbers. An element of container/list is a
-- number too, its address: what it holds stands in `elements`, and it may outlive its place in the
-- list.
pub mod Elements
pub mod Recency
pub mod Interface
pub mod Implements
mod Tests
use gzv2ray_v.Prelude.Dict.{lookup, insert, delete}
use gzv2ray_v.Prelude.{
  ℕ, zero, suc, true, false, none, some, [], ◌∷◌, List, Option, ◌+◌, if◌then◌else◌, Bool, ◌==◌, ltb,
  length,
}

-- `lruElement`
pub record LruElement : Type 0 where
  pub key : ℕ
  pub held : ℕ

-- The lists are the linked list from its front, and the maps with the addresses that they hold. A
-- new element gets the address `fresh`.
pub record Lru : Type 0 where
  pub capacity : ℕ
  pub elements : List (ℕ × LruElement)
  pub fresh : ℕ
  pub linked : List ℕ
  pub key_to_element : List (ℕ × ℕ)
  pub value_to_element : List (ℕ × ℕ)

-- `NewLru`
unfoldable pub new_lru : ℕ → Lru
new_lru capacity = record {
  capacity = capacity;
  elements = [];
  fresh = 0;
  linked = [];
  key_to_element = [];
  value_to_element = [];
}

-- container/list: whether an element is in the list, the list without it, and the one at the back.
unfoldable pub is_linked : ℕ → List ℕ → Bool
is_linked e [] = false
is_linked e (x ∷ xs) = if x == e then true else is_linked e xs

unfoldable pub unlink : ℕ → List ℕ → List ℕ
unlink e [] = []
unlink e (x ∷ xs) = let rest = unlink e xs in if x == e then xs else x ∷ rest

unfoldable pub back : List ℕ → Option ℕ
back [] = none
back (x ∷ xs) = elim xs [ [] ↦ some x | y ∷ ys ↦ back xs ]

-- `MoveBefore(element, Front())`, which leaves the list if the element is not in it.
unfoldable pub move_to_front : ℕ → List ℕ → List ℕ
unfolding is_linked unlink
move_to_front e xs = if is_linked e xs then e ∷ unlink e xs else xs

unfoldable pub moved : ℕ → Lru → Lru
unfolding move_to_front
moved e l = record l { linked = move_to_front e l.linked }

unfoldable pub held_by : ℕ → Lru → Option ℕ
held_by e l = elim (lookup e l.elements) [ none ↦ none | some x ↦ some x.held ]

unfoldable pub key_by : ℕ → Lru → Option ℕ
key_by e l = elim (lookup e l.elements) [ none ↦ none | some x ↦ some x.key ]

unfoldable pub get : ℕ → Lru → Option ℕ × Lru
unfolding moved held_by
get k l = elim (lookup k l.key_to_element) [ none ↦ (none, l) | some e ↦ (held_by e l, moved e l) ]

unfoldable pub get_key_from_value : ℕ → Lru → Option ℕ × Lru
unfolding moved key_by
get_key_from_value v l = elim (lookup v l.value_to_element) [
  | none ↦ (none, l)
  | some e ↦ (key_by e l, moved e l)
]

-- `Put` of a key that is there.
unfoldable pub overwrite : ℕ → ℕ → ℕ → Lru → Lru
overwrite e k v l = record l {
  elements = insert e (record { key = k; held = v }) l.elements;
  linked = move_to_front e l.linked;
}

unfoldable pub push_front : ℕ → ℕ → Lru → Lru
push_front k v l = record l {
  elements = insert l.fresh (record { key = k; held = v }) l.elements;
  fresh = l.fresh + 1;
  linked = l.fresh ∷ l.linked;
  key_to_element = insert k l.fresh l.key_to_element;
  value_to_element = insert v l.fresh l.value_to_element;
}

-- `Remove(Back())`, and the deletions from the maps.
unfoldable pub forget : ℕ → LruElement → Lru → Lru
unfolding unlink
forget e x l = record l {
  linked = unlink e l.linked;
  key_to_element = delete x.key l.key_to_element;
  value_to_element = delete x.held l.value_to_element;
}

unfoldable pub remove_back : Lru → Lru
unfolding forget
remove_back l = elim (back l.linked) [
  | none ↦ l
  | some e ↦ elim (lookup e l.elements) [ none ↦ l | some x ↦ forget e x l ]
]

unfoldable pub put : ℕ → ℕ → Lru → Lru
unfolding overwrite push_front remove_back
put k v l = elim (lookup k l.key_to_element) [
  | some e ↦ overwrite e k v l
  | none ↦
      let l' = push_front k v l in if ltb l'.capacity (length l'.linked) then remove_back l' else l'
]
