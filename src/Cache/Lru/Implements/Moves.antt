-- ===== src/Cache/Lru/Implements/Moves.antt =====
-- `Get` and `GetKeyFromValue`.
use gzv2ray_v.Prelude.Dict.{lookup}
use mathlib.Core.Path.{subst}
use gzv2ray_v.Prelude.{
  ℕ, suc, true, inl, inr, none, some, refl, [], Bool-cases, ◌∷◌, List, ◌≡◌, map, ◌==◌, length, ap,
  ◌∙◌, sym, Option-cases, Option, arith, ◌≤◌,
}
use gzv2ray_v.Cache.Lru.{
  Lru, is_linked, unlink, move_to_front, moved, held_by, key_by, get, get_key_from_value, lookup,
}
use gzv2ray_v.Cache.Lru.Elements.{
  Entry, find, without, find-touched, Unique-touched, find-own, find_sound, All-find, All-without,
  without-same,
}
use gzv2ray_v.Cache.Lru.Implements.{
  Holds, Points, pair, by_address, by_key, by_held, address_of, Answers,
}
use gzv2ray_v.Cache.Lru.Recency.{value_of, key_of, drop_key, use_key, use_value}

is_linked-find :
    (a : ℕ) (es : List Entry) (e : Entry)
    → find by_address a es ≡ some e
    → is_linked a (map by_address es) ≡ true
unfolding is_linked find
is_linked-find a [] e h = absurd (cc h)
is_linked-find a (d ∷ es) e h = elim (Bool-cases (d.address == a)) [
  | inl same ↦ rw same refl
  | inr other ↦ rw other (is_linked-find a es e (rw other at h))
]

pub unlink-without :
    (a : ℕ) (es : List Entry)
    → unlink a (map by_address es) ≡ map by_address (without by_address a es)
unfolding unlink without
unlink-without a [] = refl
unlink-without a (d ∷ es) = elim (Bool-cases (d.address == a)) [
  | inl same ↦ rw same refl
  | inr other ↦ rw other (ap (◌∷◌ d.address) (unlink-without a es))
]

pub length-without :
    (a : ℕ) (es : List Entry) (e : Entry)
    → find by_address a es ≡ some e
    → suc (length (without by_address a es)) ≡ length es
unfolding find without
length-without a [] e h = absurd (cc h)
length-without a (d ∷ es) e h = elim (Bool-cases (d.address == a)) [
  | inl same ↦ rw same refl
  | inr other ↦ rw other (ap suc (length-without a es e (rw other at h)))
]

-- An entry in front, as `MoveBefore` leaves it.
abbrev pub touch : Entry → List Entry → List Entry
touch e es = e ∷ without by_address e.address es

module _ (l : Lru) (es : List Entry) (e : Entry) (v : Holds l es)
    (h : find by_address e.address es ≡ some e) where
  moved-Holds : Holds (moved e.address l) (touch e es)
  unfolding moved move_to_front
  moved-Holds = record {
    linked =
        rw (v.linked, is_linked-find e.address es e h)
          (ap (◌∷◌ e.address) (unlink-without e.address es));
    points = (
      All-find by_address (Points l) e.address es e h v.points,
      All-without by_address (Points l) e.address es v.points,
    );
    keyed = λ k.
        v.keyed k ∙ ap address_of (sym (find-touched by_key by_address e.address k es e h v.keys));
    valued = λ x.
        v.valued x
        ∙ ap address_of (sym (find-touched by_held by_address e.address x es e h v.values));
    addresses = Unique-touched by_address by_address e.address es e h v.addresses;
    keys = Unique-touched by_key by_address e.address es e h v.keys;
    values = Unique-touched by_held by_address e.address es e h v.values;
  }

abbrev pub held_in : Option Entry → Option ℕ
held_in none = none
held_in (some e) = some e.held

abbrev pub key_in : Option Entry → Option ℕ
key_in none = none
key_in (some e) = some e.key

pub value_of-find :
    (k : ℕ) (es : List Entry) → value_of k (map pair es) ≡ held_in (find by_key k es)
unfolding value_of find
value_of-find k [] = refl
value_of-find k (d ∷ es) = elim (Bool-cases (d.key == k)) [
  | inl same ↦ rw same refl
  | inr other ↦ rw other (value_of-find k es)
]

pub key_of-find : (x : ℕ) (es : List Entry) → key_of x (map pair es) ≡ key_in (find by_held x es)
unfolding key_of find
key_of-find x [] = refl
key_of-find x (d ∷ es) = elim (Bool-cases (d.held == x)) [
  | inl same ↦ rw same refl
  | inr other ↦ rw other (key_of-find x es)
]

pub not_held : (o : Option Entry) → held_in o ≡ none → o ≡ none
not_held none h = refl
not_held (some e) h = absurd (cc h)

pub not_keyed : (o : Option Entry) → key_in o ≡ none → o ≡ none
not_keyed none h = refl
not_keyed (some e) h = absurd (cc h)

drop_key-without :
    (k : ℕ) (es : List Entry) → drop_key k (map pair es) ≡ map pair (without by_key k es)
unfolding drop_key without
drop_key-without k [] = refl
drop_key-without k (d ∷ es) = elim (Bool-cases (d.key == k)) [
  | inl same ↦ rw same refl
  | inr other ↦ rw other (ap (◌∷◌ (d.key, d.held)) (drop_key-without k es))
]

get_miss : (k : ℕ) (l : Lru) → lookup k l.key_to_element ≡ none → get k l ≡ (none, l)
unfolding get
get_miss k l h = rw (h, get) refl

get_hit :
    (k : ℕ) (l : Lru) (e : ℕ)
    → lookup k l.key_to_element ≡ some e
    → get k l ≡ (held_by e l, moved e l)
unfolding get
get_hit k l e h = rw (h, get) refl

get_key_miss :
    (x : ℕ) (l : Lru) → lookup x l.value_to_element ≡ none → get_key_from_value x l ≡ (none, l)
unfolding get_key_from_value
get_key_miss x l h = rw (h, get_key_from_value) refl

get_key_hit :
    (x : ℕ) (l : Lru) (e : ℕ)
    → lookup x l.value_to_element ≡ some e
    → get_key_from_value x l ≡ (key_by e l, moved e l)
unfolding get_key_from_value
get_key_hit x l e h = rw (h, get_key_from_value) refl

-- What the promise says of a key or a value that is there, or not.
pub use_key_miss : (k : ℕ) (ps : List (ℕ × ℕ)) → value_of k ps ≡ none → use_key k ps ≡ (none, ps)
use_key_miss k ps h = rw (h, use_key) refl

pub use_key_hit :
    (k : ℕ) (ps : List (ℕ × ℕ)) (x : ℕ)
    → value_of k ps ≡ some x
    → use_key k ps ≡ (some x, (k, x) ∷ drop_key k ps)
use_key_hit k ps x h = rw (h, use_key) refl

pub use_value_miss : (x : ℕ) (ps : List (ℕ × ℕ)) → key_of x ps ≡ none → use_value x ps ≡ (none, ps)
use_value_miss x ps h = rw (h, use_value) refl

pub use_value_hit :
    (x : ℕ) (ps : List (ℕ × ℕ)) (k : ℕ)
    → key_of x ps ≡ some k
    → use_value x ps ≡ (some k, (k, x) ∷ drop_key k ps)
use_value_hit x ps k h = rw (h, use_value) refl

module _ (l : Lru) (es : List Entry) (v : Holds l es) (room : length es ≤ l.capacity) where
  -- A call that finds an entry `e` among these.
  touching :
      (e : Entry) (answer : Option ℕ)
      → find by_address e.address es ≡ some e
      → Answers
          (answer, moved e.address l)
          (answer, (e.key, e.held) ∷ drop_key e.key (map pair es))
          l.capacity
  touching e answer h = record {
    entries = touch e es;
    holds = moved-Holds l es e v h;
    answer = refl;
    shows = ap (◌∷◌ (e.key, e.held)) (
        sym (
          drop_key-without e.key es
          ∙ ap (map pair) (without-same by_key by_address e.address es e h v.keys)));
    bounded = omega (arith, room, length-without e.address es e h);
    same_capacity = unfold moved in refl;
  }

  unmoved : Answers (none, l) (none, map pair es) l.capacity
  unmoved = record {
    entries = es;
    holds = v;
    answer = refl;
    shows = refl;
    bounded = room;
    same_capacity = refl;
  }

  holds_held : (e : Entry) → Points l e → held_by e.address l ≡ some e.held
  unfolding held_by
  holds_held e p = rw (p.0, held_by) refl

  holds_key : (e : Entry) → Points l e → key_by e.address l ≡ some e.key
  unfolding key_by
  holds_key e p = rw (p.0, key_by) refl

  pub get-Answers : (k : ℕ) → Answers (get k l) (use_key k (map pair es)) l.capacity
  get-Answers k = elim (Option-cases (find by_key k es)) [
    | inl gone ↦
        rw
          (
            get_miss k l (v.keyed k ∙ ap address_of gone),
            use_key_miss k (map pair es) (value_of-find k es ∙ ap held_in gone),
          )
          unmoved
    | inr (e, here) ↦
        let points = All-find by_key (Points l) k es e here v.points in
        rw
          (
            get_hit k l e.address (v.keyed k ∙ ap address_of here),
            use_key_hit k (map pair es) e.held (value_of-find k es ∙ ap held_in here),
            holds_held e points,
          )
          (subst
            (λ j.
              Answers (some e.held, moved e.address l)
                (some e.held, (j, e.held) ∷ drop_key j (map pair es)) l.capacity)
            (find_sound by_key k es e here)
            (touching e (some e.held) (find-own by_address by_key k es e here v.addresses)))
  ]

  pub get_key_from_value-Answers :
      (x : ℕ) → Answers (get_key_from_value x l) (use_value x (map pair es)) l.capacity
  get_key_from_value-Answers x = elim (Option-cases (find by_held x es)) [
    | inl gone ↦
        rw
          (
            get_key_miss x l (v.valued x ∙ ap address_of gone),
            use_value_miss x (map pair es) (key_of-find x es ∙ ap key_in gone),
          )
          unmoved
    | inr (e, here) ↦
        let points = All-find by_held (Points l) x es e here v.points in
        rw
          (
            get_key_hit x l e.address (v.valued x ∙ ap address_of here),
            use_value_hit x (map pair es) e.key (key_of-find x es ∙ ap key_in here),
            holds_key e points,
          )
          (subst
            (λ w.
              Answers (some e.key, moved e.address l)
                (some e.key, (e.key, w) ∷ drop_key e.key (map pair es)) l.capacity)
            (find_sound by_held x es e here)
            (touching e (some e.key) (find-own by_address by_held x es e here v.addresses)))
  ]
