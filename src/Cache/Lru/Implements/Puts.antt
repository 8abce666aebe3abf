-- ===== src/Cache/Lru/Implements/Puts.antt =====
-- `Put` of a new key with a new value.
use mathlib.Core.Path.{subst}
use gzv2ray_v.Prelude.{
  ℕ, suc, false, inl, inr, none, some, [], Bool-cases, ◌∷◌, List, ◌≡◌, map, All, ap, take, ◌==◌,
  length, ◌∙◌, sym, ◌-◌, true, refl, arith, if◌then◌else◌, Bool, All-imp, ==_iff, Option, zero, ◌≤◌,
  ltb, length-take, take_of_length-le,
}
use gzv2ray_v.Cache.Lru.{
  Lru, back, unlink, forget, push_front, put, remove_back, LruElement, lookup,
}
use gzv2ray_v.Cache.Lru.Elements.{
  Entry, find, without, Unique, Unique-without, find-without, All-find, All-without, find-here,
  find-later, without-here, without-later, Differs,
}
use gzv2ray_v.Cache.Lru.Implements.{
  Holds, Points, by_address, by_key, by_held, address_of, pair, Answers,
}
use gzv2ray_v.Cache.Lru.Implements.Moves.{unlink-without}
use gzv2ray_v.Cache.Lru.Recency.{add}
use gzv2ray_v.Prelude.Dict.{lookup-insert, lookup-delete, lookup}

-- What is not found differs from all that is there.
find-none :
    (f : Entry → ℕ) (x : ℕ) (es : List Entry)
    → find f x es ≡ none
    → All (λ d. (f d == x) ≡ false) es
find-none f x [] h = tt
find-none f x (d ∷ es) h = elim (Bool-cases (f d == x)) [
  | inl same ↦ absurd (cc (find-here f x d es same, h))
  | inr other ↦ (other, find-none f x es (sym (find-later f x d es other) ∙ h))
]

entry : ℕ → ℕ → ℕ → Entry
entry a k x = record { address = a; key = k; held = x }

address-cons :
    (f : Entry → ℕ) (d : Entry) (es : List Entry) (j : ℕ)
    → address_of (find f j (d ∷ es))
      ≡ (if f d == j then some d.address else address_of (find f j es))
address-cons f d es j = elim (Bool-cases (f d == j)) [
  | inl same ↦ rw same (ap address_of (find-here f j d es same))
  | inr other ↦ rw other (ap address_of (find-later f j d es other))
]

address-if :
    (b : Bool) (o : Option Entry)
    → address_of (if b then none else o) ≡ (if b then none else address_of o)
address-if true o = refl
address-if false o = refl

module _ (l : Lru) (es : List Entry) (v : Holds l es) (k x : ℕ) (new_key : find by_key k es ≡ none)
    (new_value : find by_held x es ≡ none) where
  pushed-Holds : Holds (push_front k x l) (entry l.fresh k x ∷ es)
  unfolding push_front entry
  pushed-Holds = record {
    linked = ap (◌∷◌ l.fresh) v.linked;
    points = (
      (
        ground (arith, lookup-insert l.fresh l.fresh (record { key = k; held = x }) l.elements),
        omega arith,
      ),
      All-imp (Points l) (Points (push_front k x l))
          (λ e p. (
            ground (
              arith,
              lookup-insert l.fresh e.address (record { key = k; held = x }) l.elements,
              p.0,
              p.1,
            ),
            omega (arith, p.1),
          ))
          es v.points,
    );
    keyed = λ j.
        rw
          (
            lookup-insert k j l.fresh l.key_to_element,
            v.keyed j,
            address-cons by_key (entry l.fresh k x) es j,
          )
          refl;
    valued = λ y.
        rw
          (
            lookup-insert x y l.fresh l.value_to_element,
            v.valued y,
            address-cons by_held (entry l.fresh k x) es y,
          )
          refl;
    addresses = (
      All-imp (Points l) (Differs by_address (entry l.fresh k x)) (λ e p. ground (arith, p.1)) es
          v.points,
      v.addresses,
    );
    keys = (find-none by_key k es new_key, v.keys);
    values = (find-none by_held x es new_value, v.values);
  }

-- The entry at the back, and what is left without it.
record Last (es : List Entry) : Type 0 where
  last : Entry
  at_back : back (map by_address es) ≡ some last.address
  found : find by_address last.address es ≡ some last
  others : without by_address last.address es ≡ take (length es - 1) es

at_end : (e : Entry) (es : List Entry) → Unique by_address (e ∷ es) → Last (e ∷ es)
unfolding back
at_end e [] u = record {
  last = e;
  at_back = refl;
  found = find-here by_address e.address e [] ((==_iff e.address e.address).1 refl);
  others = without-here by_address e.address e [] ((==_iff e.address e.address).1 refl);
}
at_end e (d ∷ es) u =
    let r = at_end d es u.1 in
    let apart =
      All-find by_address (Differs by_address e) r.last.address (d ∷ es) r.last r.found u.0 in
    let later : (e.address == r.last.address) ≡ false = ground arith in
    record {
      last = r.last;
      at_back = r.at_back;
      found = find-later by_address r.last.address e (d ∷ es) later ∙ r.found;
      others =
          without-later by_address r.last.address e (d ∷ es) later
          ∙ ap (◌∷◌ e) r.others
          ∙ ap (λ n. e ∷ take n (d ∷ es)) {x = length (d ∷ es) - 1} {y = length es} (omega arith)
          ∙ ap (λ n. take n (e ∷ d ∷ es)) {x = suc (length es)} {y = length (e ∷ d ∷ es) - 1}
              (omega arith);
    }

module _ (l : Lru) (es : List Entry) (v : Holds l es) (e : Entry)
    (h : find by_address e.address es ≡ some e) where
  forget-Holds :
      Holds
        (forget e.address (record { key = e.key; held = e.held }) l)
        (without by_address e.address es)
  unfolding forget
  forget-Holds = record {
    linked = ap (unlink e.address) v.linked ∙ unlink-without e.address es;
    points = All-without by_address (Points l) e.address es v.points;
    keyed = λ j.
        rw
          (
            lookup-delete e.key j l.key_to_element,
            v.keyed j,
            find-without by_key by_address e.address j es e h v.keys,
            address-if (e.key == j) (find by_key j es),
          )
          refl;
    valued = λ y.
        rw
          (
            lookup-delete e.held y l.value_to_element,
            v.valued y,
            find-without by_held by_address e.address y es e h v.values,
            address-if (e.held == y) (find by_held y es),
          )
          refl;
    addresses = Unique-without by_address by_address e.address es v.addresses;
    keys = Unique-without by_key by_address e.address es v.keys;
    values = Unique-without by_held by_address e.address es v.values;
  }

pub length-map {ℓ} : {B : Type ℓ} (f : Entry → B) (es : List Entry) → length (map f es) ≡ length es
length-map f [] = refl
length-map f (e ∷ es) = ap suc (length-map f es)

map-take : (n : ℕ) (es : List Entry) → map pair (take n es) ≡ take n (map pair es)
map-take zero es = refl
map-take (suc n) [] = refl
map-take (suc n) (e ∷ es) = ap (◌∷◌ (pair e)) (map-take n es)

put_new :
    (k x : ℕ) (l : Lru)
    → lookup k l.key_to_element ≡ none
    → put k x l ≡ (
        let l' = push_front k x l in
        if ltb l'.capacity (length l'.linked) then remove_back l' else l')
unfolding put
put_new k x l h = rw (h, put) refl

remove_back-forget :
    (l : Lru) (e : ℕ) (x : LruElement)
    → back l.linked ≡ some e
    → lookup e l.elements ≡ some x
    → remove_back l ≡ forget e x l
unfolding remove_back
remove_back-forget l e x h p = rw (h, remove_back) (rw p refl)

-- Without what is at the back, the promise's list is cut at the end.
remove_back-Holds :
    (l : Lru) (e : Entry) (es : List Entry)
    → Holds l (e ∷ es)
    → Holds (remove_back l) (take (length es) (e ∷ es)) × ((remove_back l).capacity ≡ l.capacity)
unfolding forget
remove_back-Holds l e es v =
    let r = at_end e es v.addresses in
    let points = All-find by_address (Points l) r.last.address (e ∷ es) r.last r.found v.points in
    rw
      (remove_back-forget l r.last.address (record { key = r.last.key; held = r.last.held })
        (ap back v.linked ∙ r.at_back) points.0)
      (
        subst (Holds (forget r.last.address (record { key = r.last.key; held = r.last.held }) l))
            (r.others
              ∙ ap (λ n. take n (e ∷ es)) {x = length (e ∷ es) - 1} {y = length es} (omega arith))
            (forget-Holds l (e ∷ es) v r.last r.found),
        refl,
      )

module _ (l : Lru) (es : List Entry) (v : Holds l es) (room : length es ≤ l.capacity) where
  pub put-Answers :
      (k x : ℕ)
      → find by_key k es ≡ none
      → find by_held x es ≡ none
      → Answers (none, put k x l) (none, add l.capacity k x (map pair es)) l.capacity
  unfolding push_front entry
  put-Answers k x new_key new_value =
      let h = pushed-Holds l es v k x new_key new_value in
      let n = entry l.fresh k x in
      let size : length (push_front k x l).linked ≡ suc (length es) =
        ap length h.linked ∙ length-map by_address (n ∷ es) in
      rw (put_new k x l (v.keyed k ∙ ap address_of new_key))
        (elim (Bool-cases (ltb l.capacity (length (push_front k x l).linked))) [
          | inl full ↦
              let r = remove_back-Holds (push_front k x l) n es h in
              let all_ : length es ≡ l.capacity = ground (arith, size) in
              rw full (record {
                entries = take (length es) (n ∷ es);
                holds = r.0;
                answer = refl;
                shows =
                    map-take (length es) (n ∷ es) ∙ ap (λ m. take m ((k, x) ∷ map pair es)) all_;
                bounded = omega (arith, length-take (length es) (n ∷ es), all_);
                same_capacity = r.1;
              })
          | inr free ↦ rw free (record {
            entries = n ∷ es;
            holds = h;
            answer = refl;
            shows = sym (
                take_of_length-le l.capacity ((k, x) ∷ map pair es)
                  (ground (arith, size, length-map pair es)));
            bounded = ground (arith, size);
            same_capacity = refl;
          })
        ])
