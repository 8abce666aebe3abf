-- ===== src/Kcp/SendingWindow/Order.antt =====
-- The window is in ascending order of numbers, and which payload it holds under a number.
use gzv2ray_v.Prelude.{
  ℕ, ◌≡◌, ◌==◌, suc, inl, inr, none, some, refl, arith, tests, [], Bool-cases, ◌∷◌, List, ◌≤◌, ◌<◌,
  Option, if◌then◌else◌, max, leb, ◌≢◌, ◌++◌, length, Option-cases, sym, ◌∙◌, ap,
}
use mathlib.Core.Option
use mathlib.Core.Option.{some-injective}
use mathlib.Core.Path.{subst}
use native.Mathlib.Decide.{dec_lt, ℕ_discrete}
use gzv2ray_v.Kcp.Segment.{DataSegment}
use gzv2ray_v.Kcp.SendingWindow.{new_data_segment, clear_cache, remove_from}

-- The numbers ascend, from at least `lo` on.
abbrev pub Ascending : ℕ → List DataSegment → Type 0
Ascending lo [] = Unit
Ascending lo (seg ∷ cache) = (lo ≤ seg.number) × Ascending (suc seg.number) cache

abbrev pub Below : ℕ → List DataSegment → Type 0
Below hi [] = Unit
Below hi (seg ∷ cache) = (seg.number < hi) × Below hi cache

-- The payload that waits under a number.
unfoldable pub payload : ℕ → List DataSegment → Option (List ℕ)
payload n [] = none
payload n (seg ∷ cache) = if seg.number == n then some seg.payload else payload n cache

pub Ascending-weaken :
    (lo hi : ℕ) (c : List DataSegment) → lo ≤ hi → Ascending hi c → Ascending lo c
Ascending-weaken lo hi [] h a = tt
Ascending-weaken lo hi (s ∷ c) h a = (omega arith, a.1)

-- Nothing waits under a number below the first.
pub payload_below : (n lo : ℕ) (c : List DataSegment) → Ascending lo c → n < lo → payload n c ≡ none
unfolding payload
payload_below n lo [] a h = refl
payload_below n lo (s ∷ c) a h = ground (arith, payload_below n (suc s.number) c a.1)

pub payload_above : (n hi : ℕ) (c : List DataSegment) → Below hi c → hi ≤ n → payload n c ≡ none
unfolding payload
payload_above n hi [] b h = refl
payload_above n hi (s ∷ c) b h = ground (arith, payload_above n hi c b.1 h)

pub payload-clear_cache :
    (n una lo : ℕ) (c : List DataSegment)
    → Ascending lo c
    → payload n (clear_cache c una) ≡ (if leb una n then payload n c else none)
unfolding payload clear_cache
payload-clear_cache n una lo [] a = ground arith
payload-clear_cache n una lo (s ∷ c) a =
    ground
      (arith, payload-clear_cache n una (suc s.number) c a.1, payload_below n (suc s.number) c a.1)

pub Ascending-clear_cache :
    (una lo : ℕ) (c : List DataSegment)
    → Ascending lo c
    → Ascending (max una lo) (clear_cache c una)
unfolding clear_cache
Ascending-clear_cache una lo [] a = tt
Ascending-clear_cache una lo (s ∷ c) a = elim (Bool-cases (leb una s.number)) [
  | inl e ↦ rw e (omega (tests, e), a.1)
  | inr e ↦ rw e (
      Ascending-weaken (max una lo) (max una (suc s.number)) (clear_cache c una) (omega arith)
        (Ascending-clear_cache una (suc s.number) c a.1))
]

pub Below-clear_cache :
    (una hi : ℕ) (c : List DataSegment) → Below hi c → Below hi (clear_cache c una)
unfolding clear_cache
Below-clear_cache una hi [] b = tt
Below-clear_cache una hi (s ∷ c) b = elim (Bool-cases (leb una s.number)) [
  | inl e ↦ rw e b
  | inr e ↦ rw e (Below-clear_cache una hi c b.1)
]

-- What `Remove` makes of an ascending window.
pub record Removes (n lo hi : ℕ) (c c' : List DataSegment) : Type 0 where
  pub ascending : Ascending lo c'
  pub below : Below hi c'
  pub gone : payload n c' ≡ none
  pub others : (m : ℕ) → m ≢ n → payload m c' ≡ payload m c
  pub shorter : suc (length c') ≡ length c

remove_past :
    (n : ℕ) (s : DataSegment) (c : List DataSegment) → n < s.number → remove_from (s ∷ c) n ≡ none
unfolding remove_from
remove_past n s c h = ground arith

remove_here :
    (n : ℕ) (s : DataSegment) (c : List DataSegment) → s.number ≡ n → remove_from (s ∷ c) n ≡ some c
unfolding remove_from
remove_here n s c h = ground arith

remove_there :
    (n : ℕ) (s : DataSegment) (c : List DataSegment)
    → s.number < n
    → remove_from (s ∷ c) n ≡ Option.map (λ r. s ∷ r) (remove_from c n)
unfolding remove_from
remove_there n s c h = ground arith

payload-cons-lt :
    (n : ℕ) (s : DataSegment) (c : List DataSegment)
    → s.number ≢ n
    → payload n (s ∷ c) ≡ payload n c
unfolding payload
payload-cons-lt n s c h = ground arith

payload-cons_congr :
    (m : ℕ) (s : DataSegment) (c c' : List DataSegment)
    → payload m c' ≡ payload m c
    → payload m (s ∷ c') ≡ payload m (s ∷ c)
unfolding payload
payload-cons_congr m s c c' h = rw h

module _ (n lo hi : ℕ) (s : DataSegment) (c : List DataSegment) (a : Ascending lo (s ∷ c))
    (b : Below hi (s ∷ c)) where
  Removes-here : s.number ≡ n → Removes n lo hi (s ∷ c) c
  Removes-here h = record {
    ascending = Ascending-weaken lo (suc s.number) c (omega arith) a.1;
    below = b.1;
    gone = payload_below n (suc s.number) c a.1 (omega arith);
    others = λ m ne. sym (payload-cons-lt m s c (omega arith));
    shorter = refl;
  }

  Removes-there :
      (r : List DataSegment)
      → s.number < n
      → Removes n (suc s.number) hi c r
      → Removes n lo hi (s ∷ c) (s ∷ r)
  Removes-there r h rec = record {
    ascending = (a.0, rec.ascending);
    below = (b.0, rec.below);
    gone = payload-cons-lt n s r (omega arith) ∙ rec.gone;
    others = λ m ne. payload-cons_congr m s c r (rec.others m ne);
    shorter = ap suc rec.shorter;
  }

pub remove_from-some :
    (n lo hi : ℕ) (c c' : List DataSegment)
    → Ascending lo c
    → Below hi c
    → remove_from c n ≡ some c'
    → Removes n lo hi c c'
remove_from-some n lo hi [] c' a b e = absurd (unfold remove_from in cc e)
remove_from-some n lo hi (s ∷ c) c' a b e = elim (dec_lt n s.number) [
  | yes past ↦ cc (sym (remove_past n s c past) ∙ e)
  | no reached ↦ elim (ℕ_discrete s.number n) [
    | yes here ↦
        let same : c ≡ c' = cc (remove_here n s c here) in
        subst (Removes n lo hi (s ∷ c)) same (Removes-here n lo hi s c a b here)
    | no ne ↦ elim (Option-cases (remove_from c n)) [
      | inl r ↦ cc (remove_there n s c (omega arith), ap (Option.map (λ t. s ∷ t)) r)
      | inr (c1, r) ↦
          let same : s ∷ c1 ≡ c' =
            cc (remove_there n s c (omega arith), ap (Option.map (λ t. s ∷ t)) r) in
          subst (Removes n lo hi (s ∷ c)) same (
            Removes-there n lo hi s c a b c1 (omega arith)
              (remove_from-some n (suc s.number) hi c c1 a.1 b.1 r))
    ]
  ]
]

pub remove_from-none :
    (n lo : ℕ) (c : List DataSegment) → Ascending lo c → remove_from c n ≡ none → payload n c ≡ none
unfolding remove_from payload
remove_from-none n lo [] a e = refl
remove_from-none n lo (s ∷ c) a e =
    ground (arith, payload_below n (suc s.number) c a.1, remove_from-none n (suc s.number) c a.1)

pub payload-append :
    (n m : ℕ) (b : List ℕ) (c : List DataSegment)
    → Below m c
    → payload n (c ++ (new_data_segment m b ∷ [])) ≡ (if m == n then some b else payload n c)
unfolding payload new_data_segment
payload-append n m b [] h = refl
payload-append n m b (s ∷ c) h = ground (arith, payload-append n m b c h.1)

pub Ascending-append :
    (lo m : ℕ) (b : List ℕ) (c : List DataSegment)
    → Ascending lo c
    → Below m c
    → lo ≤ m
    → Ascending lo (c ++ (new_data_segment m b ∷ []))
unfolding new_data_segment
Ascending-append lo m b [] a h l = (l, tt)
Ascending-append lo m b (s ∷ c) a h l = (a.0, Ascending-append (suc s.number) m b c a.1 h.1 h.0)

pub Below-append :
    (m : ℕ) (b : List ℕ) (c : List DataSegment)
    → Below m c
    → Below (suc m) (c ++ (new_data_segment m b ∷ []))
unfolding new_data_segment
Below-append m b [] h = (omega arith, tt)
Below-append m b (s ∷ c) h = (omega arith, Below-append m b c h.1)
