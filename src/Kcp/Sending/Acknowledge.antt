-- ===== src/Kcp/Sending/Acknowledge.antt =====
-- The sending worker as a store: what it keeps of what was pushed until it is acknowledged.
use mathlib.Core.Path.{subst}
use gzv2ray_v.Prelude.{
  ℕ, ◌≡◌, ◌==◌, true, false, none, some, refl, Bool-cases, Bool, All, if◌then◌else◌, ltb, ◌||◌,
  length, suc, inl, inr, arith, List, leb, ◌<◌, ap, ◌^◌, nil_of_length, ◌+◌, ==_iff, not, ◌&&◌, [],
  ◌∷◌, ◌++◌,
}
use gzv2ray_v.Kcp.Go.{add_u32, IsU32}
use gzv2ray_v.Kcp.Segment.{AckSegment}
use gzv2ray_v.Kcp.SendingWindow
use gzv2ray_v.Kcp.SendingWindow.{SendingWindow, fast_ack_cache, new_data_segment}
use gzv2ray_v.Kcp.SendingWindow.Order.{payload-append, Ascending-append, Below-append, Below}
use gzv2ray_v.Kcp.SendingWindow.Visits.{
  Alike, Alike-Ascending, Alike-Below, payload-Alike, fast_ack_cache-Alike,
}
use gzv2ray_v.Kcp.Sending.{
  SendingWorker, process_receiving_next, process_acks, process_segment, push, after_acks,
  raise_remote,
}
use gzv2ray_v.Kcp.Sending.Reliable.{
  IsValid, waits, contains, process_receiving_next-IsValid, waits-process_receiving_next,
  process_acks-takes_out,
}

module _ (w : SendingWorker) (window : SendingWindow) (v : IsValid w)
    (k : Alike w.window.cache window.cache) where
  pub Alike-IsValid : IsValid (record w { window = window })
  Alike-IsValid = record {
    ascending = Alike-Ascending w.first_unacknowledged w.window.cache window.cache k v.ascending;
    below = Alike-Below w.next_number w.window.cache window.cache k v.below;
    first_le = v.first_le;
    no_wrap = v.no_wrap;
    span = v.span;
  }

after_acks-keeps :
    (w : SendingWorker) (maxack : ℕ) (removed : Bool) (current : ℕ) (seg : AckSegment) (rto : ℕ)
    → IsValid w
    → let w' = (after_acks (w, maxack, removed) current seg rto).0 in
      IsValid w' × ((n : ℕ) → waits n w' ≡ waits n w)
unfolding after_acks SendingWindow.handle_fast_ack
after_acks-keeps w maxack false current seg rto v = (v, λ n. refl)
after_acks-keeps w maxack true current seg rto v =
    let k = fast_ack_cache-Alike w.window.cache maxack rto in
    (
      Alike-IsValid w (record w.window { cache = fast_ack_cache w.window.cache maxack rto }) v k,
      λ n. payload-Alike n w.window.cache (fast_ack_cache w.window.cache maxack rto) k,
    )

pub process_segment_open :
    (w : SendingWorker) (current : ℕ) (seg : AckSegment) (rto : ℕ)
    → w.closed ≡ false
    → process_segment w current seg rto ≡ (
        let w' = process_receiving_next (raise_remote w seg.receiving_window) seg.receiving_next in
        if length seg.number_list == 0
        then (w', none)
        else after_acks (process_acks seg.number_list w' 0 false) current seg rto)
unfolding process_segment
process_segment_open w current seg rto o = simp o

-- On an open worker whose invariant holds (its numbers have not wrapped and span less than half of
-- their range), an acknowledgement of `uint32` numbers takes out of the window exactly the numbers
-- that it lists and those below its `ReceivingNext`; every other payload stays under its number,
-- and the invariant holds.
pub process_segment-acknowledges :
    (w : SendingWorker) (current : ℕ) (seg : AckSegment) (rto : ℕ)
    → IsValid w
    → w.closed ≡ false
    → All IsU32 seg.number_list
    → let w' = (process_segment w current seg rto).0 in
      IsValid w'
      × ((n : ℕ)
          → waits n w'
            ≡ (if ltb n seg.receiving_next || contains seg.number_list n then none else waits n w))
unfolding raise_remote
process_segment-acknowledges w current seg rto v open_ u =
    elim (Bool-cases (length seg.number_list == 0)) [
      | inl e ↦
          rw (process_segment_open w current seg rto open_, e)
            (
              v2,
              λ n. ground (
                arith,
                before n,
                ap (λ l. contains l n) (nil_of_length seg.number_list ((==_iff _ _).0 e)),
              ),
            )
      | inr e ↦
          let t = process_acks-takes_out seg.number_list w2 0 false v2 u in
          let l = process_acks seg.number_list w2 0 false in
          let a = after_acks-keeps l.0 l.1 l.2 current seg rto t.0 in
          rw (process_segment_open w current seg rto open_, e)
            (a.0, λ n. ground (arith, a.1 n, t.1 n, before n))
    ]
  where
    w1 : SendingWorker
    w1 = raise_remote w seg.receiving_window

    w2 : SendingWorker
    w2 = process_receiving_next w1 seg.receiving_next

    v1 : IsValid w1
    v1 = record {
      ascending = v.ascending;
      below = v.below;
      first_le = v.first_le;
      no_wrap = v.no_wrap;
      span = v.span;
    }

    v2 : IsValid w2
    v2 = process_receiving_next-IsValid w1 seg.receiving_next v1

    before : (n : ℕ) → waits n w2 ≡ (if leb seg.receiving_next n then waits n w else none)
    before n = waits-process_receiving_next n w1 seg.receiving_next v1

-- A worker that is closed takes no notice of an acknowledgement.
process_segment_closed :
    (w : SendingWorker) (current : ℕ) (seg : AckSegment) (rto : ℕ)
    → w.closed ≡ true
    → process_segment w current seg rto ≡ (w, none)
unfolding process_segment
process_segment_closed w current seg rto c = rw c

pub push_closed : (w : SendingWorker) (b : List ℕ) → w.closed ≡ true → push w b ≡ (w, false)
unfolding push
push_closed w b c = simp c

pub push_full :
    (w : SendingWorker) (b : List ℕ)
    → w.closed ≡ false
    → ltb w.window_size (SendingWindow.len w.window) ≡ true
    → push w b ≡ (w, false)
unfolding push
push_full w b o f = simp (o, f)

unfoldable pub pushed : SendingWorker → List ℕ → SendingWorker
pushed w b = record w {
  window = SendingWindow.push w.window w.next_number b;
  next_number = add_u32 w.next_number 1;
}

pub push_open :
    (w : SendingWorker) (b : List ℕ)
    → w.closed ≡ false
    → ltb w.window_size (SendingWindow.len w.window) ≡ false
    → push w b ≡ (pushed w b, true)
unfolding push pushed
push_open w b o f = simp (o, f)

module _ (w : SendingWorker) (b : List ℕ) (v : IsValid w) (h1 : suc w.next_number < 2 ^ 32) where
  next-pushed : (pushed w b).next_number ≡ suc w.next_number
  unfolding pushed
  next-pushed = omega arith

  pushed-IsValid : w.next_number < w.first_unacknowledged + 0x7FFFFFFF → IsValid (pushed w b)
  unfolding pushed SendingWindow.push
  pushed-IsValid h2 = record {
    ascending =
        Ascending-append w.first_unacknowledged w.next_number b w.window.cache v.ascending v.below
          v.first_le;
    below =
        subst (λ n. Below n (w.window.cache ++ (new_data_segment w.next_number b ∷ [])))
          {x = suc w.next_number} {y = add_u32 w.next_number 1} (omega arith)
          (Below-append w.next_number b w.window.cache v.below);
    first_le = omega arith;
    no_wrap = omega arith;
    span = omega (arith, v.first_le);
  }

  waits-pushed : (n : ℕ) → waits n (pushed w b) ≡ (if w.next_number == n then some b else waits n w)
  unfolding pushed SendingWindow.push
  waits-pushed n = payload-append n w.next_number b w.window.cache v.below

-- `Push` on a worker whose invariant holds, before the next number wraps and while the numbers in
-- use span less than 2^31 - 1: it refuses, and changes no payload or number, exactly if the worker
-- is closed or its window is over its size; else the payload waits under the next number, all
-- others stay, and the invariant holds.
pub push-keeps :
    (w : SendingWorker) (b : List ℕ)
    → IsValid w
    → suc w.next_number < 2 ^ 32
    → w.next_number < w.first_unacknowledged + 0x7FFFFFFF
    → let (w', accepted) = push w b in
      (accepted ≡ not (w.closed || ltb w.window_size (SendingWindow.len w.window)))
      × IsValid w'
      × ((n : ℕ) → waits n w' ≡ (if accepted && w.next_number == n then some b else waits n w))
      × (w'.next_number ≡ (if accepted then suc w.next_number else w.next_number))
push-keeps w b v h1 h2 = elim (Bool-cases w.closed) [
  | inl c ↦ rw (push_closed w b c) (simp c, v, λ n. refl, refl)
  | inr o ↦ elim (Bool-cases (ltb w.window_size (SendingWindow.len w.window))) [
    | inl full ↦ rw (push_full w b o full) (simp (o, full), v, λ n. refl, refl)
    | inr room ↦
        rw (push_open w b o room)
          (simp (o, room), pushed-IsValid w b v h1 h2, waits-pushed w b v h1, next-pushed w b v h1)
  ]
]
