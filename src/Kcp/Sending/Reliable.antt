-- ===== src/Kcp/Sending/Reliable.antt =====
-- What an acknowledgement takes out of the sending window, and what stays.
use native.Mathlib.Decide.{ℕ_discrete, dec_lt}
use gzv2ray_v.Prelude.{
  ℕ, ◌≡◌, refl, [], ◌∷◌, ◌≤◌, Option, List, ◌<◌, ◌^◌, ◌+◌, true, none, arith, max, if◌then◌else◌,
  ltb, leb, ◌||◌, ◌∙◌, inl, inr, Bool-cases, Option-cases, ◌==◌, ◌-◌, ap, sym, false, some, Bool,
  All,
}
use gzv2ray_v.Kcp.Go.{sub_u32, IsU32}
use gzv2ray_v.Kcp.Segment.{DataSegment}
use gzv2ray_v.Kcp.SendingWindow
use gzv2ray_v.Kcp.SendingWindow.{
  SendingWindow, new_data_segment, clear_cache, remove_from, fast_ack_cache,
}
use gzv2ray_v.Kcp.SendingWindow.Order.{
  Ascending, Below, payload, Ascending-weaken, payload-clear_cache, Ascending-clear_cache,
  Below-clear_cache, Removes, payload_below, payload_above, remove_from-none, remove_from-some,
}
use gzv2ray_v.Kcp.Sending.{
  SendingWorker, find_first_unacknowledged, process_receiving_next, process_ack, process_acks,
}

-- The window holds ascending numbers from the first unacknowledged one to the next one to be given,
-- before the numbers wrap round, and these span less than half of their range.
pub record IsValid (w : SendingWorker) : Type 0 where
  pub ascending : Ascending w.first_unacknowledged w.window.cache
  pub below : Below w.next_number w.window.cache
  pub first_le : w.first_unacknowledged ≤ w.next_number
  pub no_wrap : w.next_number < 2 ^ 32
  pub span : w.next_number ≤ w.first_unacknowledged + 0x7FFFFFFF

abbrev pub waits : ℕ → SendingWorker → Option (List ℕ)
waits n w = payload n w.window.cache

-- An invariant with everything about the window but its lower end.
record IsBetween (w : SendingWorker) (lo : ℕ) : Type 0 where
  ascending : Ascending lo w.window.cache
  below : Below w.next_number w.window.cache
  lo_le : lo ≤ w.next_number
  no_wrap : w.next_number < 2 ^ 32
  span : w.next_number ≤ lo + 0x7FFFFFFF

module _ (w : SendingWorker) (lo : ℕ) (b : IsBetween w lo) where
  find_first-IsValid : IsValid (find_first_unacknowledged w)
  unfolding find_first_unacknowledged
  find_first-IsValid = by_cache w.window.cache refl
    where
      by_cache : (c : List DataSegment) → w.window.cache ≡ c → IsValid (find_first_unacknowledged w)
      by_cache [] e =
          rw (e, find_first_unacknowledged)
            (record {
              ascending = tt;
              below = tt;
              first_le = omega arith;
              no_wrap = b.no_wrap;
              span = omega arith;
            })
      by_cache (s ∷ c) e =
          let asc : Ascending lo (s ∷ c) = rw e at b.ascending in
          let bel : Below w.next_number (s ∷ c) = rw e at b.below in
          rw (e, find_first_unacknowledged)
            (record {
              ascending = (omega arith, asc.1);
              below = bel;
              first_le = omega arith;
              no_wrap = b.no_wrap;
              span = omega (arith, b.span, asc.0);
            })

waits-find_first : (n : ℕ) (w : SendingWorker) → waits n (find_first_unacknowledged w) ≡ waits n w
unfolding find_first_unacknowledged
waits-find_first n w = refl

pub process_receiving_next-IsValid :
    (w : SendingWorker) (una : ℕ) → IsValid w → IsValid (process_receiving_next w una)
unfolding process_receiving_next SendingWindow.clear
process_receiving_next-IsValid w una v =
    find_first-IsValid (record w { window = SendingWindow.clear w.window una })
      w.first_unacknowledged
      (record {
        ascending =
            Ascending-weaken w.first_unacknowledged (max una w.first_unacknowledged)
              (clear_cache w.window.cache una) (omega arith)
              (Ascending-clear_cache una w.first_unacknowledged w.window.cache v.ascending);
        below = Below-clear_cache una w.next_number w.window.cache v.below;
        lo_le = v.first_le;
        no_wrap = v.no_wrap;
        span = v.span;
      })

pub waits-process_receiving_next :
    (n : ℕ) (w : SendingWorker) (una : ℕ)
    → IsValid w
    → waits n (process_receiving_next w una) ≡ (if leb una n then waits n w else none)
unfolding process_receiving_next SendingWindow.clear
waits-process_receiving_next n w una v =
    waits-find_first n (record w { window = SendingWindow.clear w.window una })
    ∙ payload-clear_cache n una w.first_unacknowledged w.window.cache v.ascending

-- A number that the guard of `processAck` rejects is not in the window.
guard_outside :
    (w : SendingWorker) (number : ℕ)
    → IsValid w
    → IsU32 number
    → (ltb 0x7FFFFFFF (sub_u32 number w.first_unacknowledged)
        || ltb (sub_u32 number w.next_number) 0x7FFFFFFF)
      ≡ true
    → w.first_unacknowledged ≤ number
    → w.next_number ≤ number
guard_outside w number v u g le = ground arith

remove-none :
    (sw : SendingWindow) (number : ℕ)
    → remove_from sw.cache number ≡ none
    → SendingWindow.remove sw number ≡ (sw, false)
unfolding SendingWindow.remove
remove-none sw number e = rw (e, SendingWindow.remove)

remove-some :
    (sw : SendingWindow) (number : ℕ) (c : List DataSegment)
    → remove_from sw.cache number ≡ some c
    → SendingWindow.remove sw number
      ≡ (record { cache = c; total_in_flight_size = sw.total_in_flight_size - 1 }, true)
unfolding SendingWindow.remove
remove-some sw number c e = rw (e, SendingWindow.remove)

-- What a step that takes the number `gone` out leaves of the worker.
record TakesOut (gone : ℕ) (w w' : SendingWorker) : Type 0 where
  valid : IsValid w'
  left : (n : ℕ) → waits n w' ≡ (if gone == n then none else waits n w)

module _ (w : SendingWorker) (number : ℕ) (v : IsValid w) where
  ack_absent : waits number w ≡ none → TakesOut number w w
  ack_absent e = record {
    valid = v;
    left = λ n. elim (ℕ_discrete number n) [
      | yes same ↦ ground (arith, ap (λ k. waits k w) same)
      | no ne ↦ ground arith
    ];
  }

  -- The window after a removal.
  without : List DataSegment → SendingWorker
  without c = record w {
    window = record { cache = c; total_in_flight_size = w.window.total_in_flight_size - 1 };
  }

  ack-Removes :
      (c : List DataSegment)
      → Removes number w.first_unacknowledged w.next_number w.window.cache c
      → TakesOut number w (find_first_unacknowledged (without c))
  unfolding without
  ack-Removes c r = record {
    valid = find_first-IsValid (without c) w.first_unacknowledged (record {
      ascending = r.ascending;
      below = r.below;
      lo_le = v.first_le;
      no_wrap = v.no_wrap;
      span = v.span;
    });
    left = λ n. waits-find_first n (without c) ∙ elim (ℕ_discrete number n) [
      | yes same ↦ ground (arith, r.gone, ap (λ k. payload k c) same)
      | no ne ↦ ground (arith, r.others n (λ q. ne (sym q)))
    ];
  }

  process_ack-TakesOut : IsU32 number → TakesOut number w (process_ack w number).0
  unfolding process_ack without
  process_ack-TakesOut u =
      elim (Bool-cases (
        ltb 0x7FFFFFFF (sub_u32 number w.first_unacknowledged)
        || ltb (sub_u32 number w.next_number) 0x7FFFFFFF)) [
          | inl g ↦ rw g (ack_absent (outside g))
          | inr g ↦ rw g (elim (Option-cases (remove_from w.window.cache number)) [
            | inl r ↦ rw (remove-none w.window number r) (
                ack_absent
                  (remove_from-none number w.first_unacknowledged w.window.cache v.ascending r))
            | inr (c, r) ↦ rw (remove-some w.window number c r) (
                ack-Removes c (
                  remove_from-some number w.first_unacknowledged w.next_number w.window.cache c
                    v.ascending v.below r))
          ])
        ]
    where
      outside :
          (ltb 0x7FFFFFFF (sub_u32 number w.first_unacknowledged)
              || ltb (sub_u32 number w.next_number) 0x7FFFFFFF)
            ≡ true
          → waits number w ≡ none
      outside g = elim (dec_lt number w.first_unacknowledged) [
        | yes low ↦ payload_below number w.first_unacknowledged w.window.cache v.ascending low
        | no high ↦
            payload_above number w.next_number w.window.cache v.below
              (guard_outside w number v u g (omega arith))
      ]

abbrev pub contains : List ℕ → ℕ → Bool
contains [] n = false
contains (x ∷ xs) n = x == n || contains xs n

pub process_acks-takes_out :
    (numbers : List ℕ) (w : SendingWorker) (maxack : ℕ) (removed : Bool)
    → IsValid w
    → All IsU32 numbers
    → let w' = (process_acks numbers w maxack removed).0 in
      IsValid w' × ((n : ℕ) → waits n w' ≡ (if contains numbers n then none else waits n w))
unfolding process_acks
process_acks-takes_out [] w maxack removed v u = (v, λ n. refl)
process_acks-takes_out (x ∷ xs) w maxack removed v u =
    let t = process_ack-TakesOut w x v u.0 in
    let r =
      process_acks-takes_out xs (process_ack w x).0 (if ltb maxack x then x else maxack)
        (if ltb maxack x then (process_ack w x).1 else removed) t.valid u.1 in
    (r.0, λ n. ground (arith, r.1 n, t.left n))
