-- ===== src/Bundle/Order.antt =====
-- Every package is initialised once, behind all that it imports.
use gzv2ray_v.Prelude.{
  ℕ, true, false, refl, arith, [], ◌∷◌, List, ◌<◌, ◌≡◌, ◌≤◌, All, ◌∙◌, zero, suc, inl, inr,
  Bool-cases, if◌then◌else◌, sym, ◌==◌,
}
use gzv2ray_v.Bundle.Table.{imports_above}
use gzv2ray_v.Bundle.{Package, Loaded, position, imports, contains, init, init_each}

-- No package stands twice, and each stands behind its imports.
abbrev pub IsOrdered : List Package → Type 0
IsOrdered [] = Unit
IsOrdered (p ∷ ps) =
    (contains ps p ≡ false) × All (λ q. contains ps q ≡ true) (imports p) × IsOrdered ps

-- Below the position `k` no initialisation is under way.
pub record IsLoaded (k : ℕ) (st : Loaded) : Type 0 where
  pub ordered : IsOrdered st.initialised
  pub settled : (q : Package) → position q < k → contains st.called q ≡ contains st.initialised q
  pub called : (q : Package) → contains st.initialised q ≡ true → contains st.called q ≡ true

-- What a call has done that is concerned with the packages below `k` alone.
pub record Extends (k : ℕ) (st st' : Loaded) : Type 0 where
  pub keeps : (q : Package) → contains st.initialised q ≡ true → contains st'.initialised q ≡ true
  pub above_called : (q : Package) → k ≤ position q → contains st'.called q ≡ contains st.called q
  pub above_done :
      (q : Package) → k ≤ position q → contains st'.initialised q ≡ contains st.initialised q

Extends-refl : (k : ℕ) (st : Loaded) → Extends k st st
Extends-refl k st = record {
  keeps = λ q h. h;
  above_called = λ q h. refl;
  above_done = λ q h. refl;
}

Extends-trans : (j k : ℕ) (a b c : Loaded) → j ≤ k → Extends j a b → Extends k b c → Extends k a c
Extends-trans j k a b c le x y = record {
  keeps = λ q h. y.keeps q (x.keeps q h);
  above_called = λ q h. y.above_called q h ∙ x.above_called q (omega arith);
  above_done = λ q h. y.above_done q h ∙ x.above_done q (omega arith);
}

contains-here : (ps : List Package) (p : Package) → contains (p ∷ ps) p ≡ true
unfolding contains
contains-here ps p = ground arith

contains_cons :
    (ps : List Package) (p q : Package)
    → contains (p ∷ ps) q ≡ (if position p == position q then true else contains ps q)
unfolding contains
contains_cons ps p q = ground arith

module _ (k : ℕ) (p : Package) (st st1 : Loaded) (lt : position p < k) (v : IsLoaded k st)
    (fresh : contains st.called p ≡ false) (v1 : IsLoaded (position p) st1)
    (here : All (λ q. contains st1.initialised q ≡ true) (imports p))
    (x : Extends (position p) (record st { called = p ∷ st.called }) st1) where
  finished : Loaded
  finished = record st1 { initialised = p ∷ st1.initialised }

  finished-IsLoaded : IsLoaded k finished
  unfolding finished
  finished-IsLoaded = record {
    ordered = (x.above_done p (omega arith) ∙ sym (v.settled p lt) ∙ fresh, here, v1.ordered);
    settled = λ q h. ground (
      arith,
      contains_cons st1.initialised p q,
      contains_cons st.called p q,
      v1.settled q,
      v.settled q,
      x.above_called q,
      x.above_done q,
    );
    called = λ q h. ground (
      arith,
      contains_cons st1.initialised p q,
      contains_cons st.called p q,
      v1.called q,
      x.above_called q,
    );
  }

  finished-Extends : Extends k st finished
  unfolding finished
  finished-Extends = record {
    keeps = λ q h. ground (arith, contains_cons st1.initialised p q, x.keeps q h);
    above_called = λ q h. ground (arith, contains_cons st.called p q, x.above_called q);
    above_done = λ q h. ground (arith, contains_cons st1.initialised p q, x.above_done q);
  }

-- What a call on a package achieves.
pub record Initialises (k : ℕ) (p : Package) (st st' : Loaded) : Type 0 where
  pub loaded : IsLoaded k st'
  pub done : contains st'.initialised p ≡ true
  pub extends : Extends k st st'

started-IsLoaded :
    (k : ℕ) (p : Package) (st : Loaded)
    → position p < k
    → IsLoaded k st
    → IsLoaded (position p) (record st { called = p ∷ st.called })
started-IsLoaded k p st lt v = record {
  ordered = v.ordered;
  settled = λ q h. ground (arith, contains_cons st.called p q, v.settled q);
  called = λ q h. ground (arith, contains_cons st.called p q, v.called q h);
}

init_each-Initialises :
    (call : Package → Loaded → Loaded) (k : ℕ) (ps : List Package) (st : Loaded)
    → ((q : Package) (st : Loaded)
        → position q < k
        → IsLoaded k st
        → Initialises k q st (call q st))
    → All (λ q. position q < k) ps
    → IsLoaded k st
    → let st' = init_each call ps st in
      IsLoaded k st' × All (λ q. contains st'.initialised q ≡ true) ps × Extends k st st'
unfolding init_each
init_each-Initialises call k [] st f b v = (v, tt, Extends-refl k st)
init_each-Initialises call k (p ∷ ps) st f b v =
    let r = f p st b.0 v in
    let (v', all, x) = init_each-Initialises call k ps (call p st) f b.1 r.loaded in
    (v', (x.keeps p r.done, all), Extends-trans k k st (call p st) _ (omega arith) r.extends x)

-- `$init` on a package, with fuel above its position, in a state in which nothing below `k` is under
-- way and the package stands below `k`: it ends with the package initialised, and everything that
-- was initialised before; the order of initialisation has no package twice and each behind its
-- imports; nothing at or above `k` is called or initialised.
pub init-Initialises :
    (fuel k : ℕ) (p : Package) (st : Loaded)
    → position p < fuel
    → position p < k
    → IsLoaded k st
    → Initialises k p st (init fuel p st)
unfolding init finished
init-Initialises zero k p st h lt v = absurd (omega arith)
init-Initialises (suc fuel) k p st h lt v = elim (Bool-cases (contains st.called p)) [
  | inl e ↦
      rw e (record { loaded = v; done = sym (v.settled p lt) ∙ e; extends = Extends-refl k st })
  | inr e ↦
      let (v1, here, x) =
        init_each-Initialises (init fuel) (position p) (imports p)
          (record st { called = p ∷ st.called })
          (λ q s l w. init-Initialises fuel (position p) q s (omega arith) l w) (imports_above p)
          (started-IsLoaded k p st lt v) in
      rw e (record {
        loaded = finished-IsLoaded k p st _ lt v e v1 here x;
        done = contains-here _ p;
        extends = finished-Extends k p st _ lt v e v1 here x;
      })
]
