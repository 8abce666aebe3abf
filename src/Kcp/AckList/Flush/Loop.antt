-- ===== src/Kcp/AckList/Flush/Loop.antt =====
-- `AckList.Flush`: what its loop over the entries has done when it stops.
use gzv2ray_v.Prelude.{
  ℕ, ◌≡◌, ◌==◌, inl, inr, arith, tests, [], Bool-cases, ◌∷◌, List, length, ◌++◌, ltb, if◌then◌else◌,
  ◌≤◌, append-nil, All, ◌<◌, ◌+◌, sym, length-append, take, append_assoc, ap, ◌∙◌, take-append_long,
  refl, take_of_length-le,
}
use gzv2ray_v.Kcp.Go.{add_u32}
use gzv2ray_v.Kcp.Segment.{AckSegment}
use gzv2ray_v.Kcp.AckList.{
  Flushing, new_segment, put_timestamp, put_number, is_full, flush_skip, flush_due, flush_loop,
}

-- The numbers whose next flush has come, and those that wait, in order.
unfoldable pub due : ℕ → List ℕ → List ℕ → List ℕ
due current (n ∷ ns) (f ∷ fs) =
    let rest = due current ns fs in if ltb current f then rest else n ∷ rest
due current _ _ = []

unfoldable pub waiting : ℕ → List ℕ → List ℕ → List ℕ
waiting current (n ∷ ns) (f ∷ fs) =
    let rest = waiting current ns fs in if ltb current f then n ∷ rest else rest
waiting current _ _ = []

-- `nextFlush` after a flush: the time of a due entry moves on, the others stay.
unfoldable pub rescheduled : ℕ → ℕ → List ℕ → List ℕ
rescheduled current timeout [] = []
rescheduled current timeout (f ∷ fs) =
    (if ltb current f then f else add_u32 current timeout) ∷ rescheduled current timeout fs

-- All numbers of a row of segments, in order.
unfoldable pub all_numbers : List AckSegment → List ℕ
all_numbers [] = []
all_numbers (s ∷ segs) = s.number_list ++ all_numbers segs

abbrev pub IsShort : AckSegment → Type 0
IsShort s = length s.number_list ≤ 128

pub all_numbers-append :
    (xs : List AckSegment) (s : AckSegment)
    → all_numbers (xs ++ (s ∷ [])) ≡ all_numbers xs ++ s.number_list
unfolding all_numbers
all_numbers-append [] s = append-nil s.number_list
all_numbers-append (x ∷ xs) s = simp (all_numbers-append xs s, append_assoc)

pub All-append_one :
    (xs : List AckSegment) (s : AckSegment)
    → All IsShort xs
    → IsShort s
    → All IsShort (xs ++ (s ∷ []))
All-append_one [] s h k = (k, tt)
All-append_one (x ∷ xs) s h k = (h.0, All-append_one xs s h.1 k)

number_list-put_timestamp :
    (s : AckSegment) (t : ℕ) → (put_timestamp s t).number_list ≡ s.number_list
unfolding put_timestamp
number_list-put_timestamp s t = ground arith

-- The numbers that the loop has taken so far.
unfoldable pub taken : Flushing → List ℕ
taken st = all_numbers st.written ++ st.seg.number_list

pub record IsFlushing (st : Flushing) : Type 0 where
  pub room : length st.seg.number_list < 128
  pub candidates : length st.candidates ≤ 128
  pub written : All IsShort st.written

module _ (number timestamp : ℕ) (st : Flushing) (v : IsFlushing st) where
  stamped : AckSegment
  stamped = put_timestamp (put_number st.seg number) timestamp

  number_list-stamped : stamped.number_list ≡ st.seg.number_list ++ (number ∷ [])
  unfolding stamped put_number
  number_list-stamped = number_list-put_timestamp (put_number st.seg number) timestamp

  length-stamped : length stamped.number_list ≡ length st.seg.number_list + 1
  length-stamped = rw number_list-stamped (length-append st.seg.number_list (number ∷ []))

  flush_due-IsFlushing : IsFlushing (flush_due number timestamp st)
  unfolding flush_due is_full new_segment stamped
  flush_due-IsFlushing = elim (Bool-cases (length stamped.number_list == 128)) [
    | inl e ↦ rw e (record {
      room = omega arith;
      candidates = v.candidates;
      written = All-append_one st.written stamped v.written (omega (arith, length-stamped, v.room));
    })
    | inr e ↦ rw e (record {
      room = ground (arith, length-stamped, v.room);
      candidates = v.candidates;
      written = v.written;
    })
  ]

  taken-flush_due : taken (flush_due number timestamp st) ≡ taken st ++ (number ∷ [])
  unfolding taken flush_due is_full new_segment stamped
  taken-flush_due = elim (Bool-cases (length stamped.number_list == 128)) [
    | inl e ↦ rw e (append-nil _ ∙ all_numbers-append st.written stamped ∙ gather)
    | inr e ↦ rw e gather
  ]
    where
      gather :
          all_numbers st.written ++ stamped.number_list
          ≡ (all_numbers st.written ++ st.seg.number_list) ++ (number ∷ [])
      gather =
          rw number_list-stamped
            (sym (append_assoc (all_numbers st.written) st.seg.number_list (number ∷ [])))

  candidates-flush_due : (flush_due number timestamp st).candidates ≡ st.candidates
  unfolding flush_due
  candidates-flush_due = ground arith

  flush_skip-IsFlushing : IsFlushing (flush_skip number st)
  unfolding flush_skip
  flush_skip-IsFlushing = elim (Bool-cases (ltb (length st.candidates) 128)) [
    | inl e ↦ rw e (record {
      room = v.room;
      candidates = omega (tests, length-append st.candidates (number ∷ []), e);
      written = v.written;
    })
    | inr e ↦ rw e v
  ]

  taken-flush_skip : taken (flush_skip number st) ≡ taken st
  unfolding taken flush_skip
  taken-flush_skip = ground arith

  candidates-flush_skip :
      (ws : List ℕ)
      → take 128 ((flush_skip number st).candidates ++ ws)
        ≡ take 128 (st.candidates ++ (number ∷ ws))
  unfolding flush_skip
  candidates-flush_skip ws = elim (Bool-cases (ltb (length st.candidates) 128)) [
    | inl e ↦ rw e (ap (take 128) (append_assoc st.candidates (number ∷ []) ws))
    | inr e ↦ rw e (
        take-append_long 128 st.candidates ws (omega (tests, e))
        ∙ sym (take-append_long 128 st.candidates (number ∷ ws) (omega (tests, e))))
  ]

-- What the loop has done when it stops.
pub record Looped (current timeout : ℕ) (ns fs : List ℕ) (st : Flushing) (out : List ℕ × Flushing)
    : Type 0 where
  pub valid : IsFlushing out.1
  pub numbers : taken out.1 ≡ taken st ++ due current ns fs
  pub candidates : out.1.candidates ≡ take 128 (st.candidates ++ waiting current ns fs)
  pub times : out.0 ≡ rescheduled current timeout fs

pub flush_loop-Looped :
    (current timeout : ℕ) (ns ts fs : List ℕ) (st : Flushing)
    → length ts ≡ length ns
    → length fs ≡ length ns
    → IsFlushing st
    → Looped current timeout ns fs st (flush_loop current timeout ns ts fs st)
unfolding flush_loop due waiting rescheduled
flush_loop-Looped current timeout [] ts [] st e1 e2 v = record {
  valid = v;
  numbers = sym (append-nil (taken st));
  candidates = rw append-nil (sym (take_of_length-le 128 st.candidates v.candidates));
  times = refl;
}
flush_loop-Looped current timeout (n ∷ ns) (t ∷ ts) (f ∷ fs) st e1 e2 v =
    elim (Bool-cases (ltb current f)) [
      | inl wait ↦
          let h =
            flush_loop-Looped current timeout ns ts fs (flush_skip n st) (omega arith) (omega arith)
              (flush_skip-IsFlushing n t st v) in
          rw wait (record {
            valid = h.valid;
            numbers =
                rw wait (h.numbers ∙ ap (λ u. u ++ due current ns fs) (taken-flush_skip n t st v));
            candidates =
                rw wait (h.candidates ∙ candidates-flush_skip n t st v (waiting current ns fs));
            times = rw wait (ap (◌∷◌ f) h.times);
          })
      | inr now ↦
          let h =
            flush_loop-Looped current timeout ns ts fs (flush_due n t st) (omega arith)
              (omega arith) (flush_due-IsFlushing n t st v) in
          rw now (record {
            valid = h.valid;
            numbers = rw now (
                h.numbers
                ∙ ap (λ u. u ++ due current ns fs) (taken-flush_due n t st v)
                ∙ append_assoc (taken st) (n ∷ []) (due current ns fs));
            candidates = rw now (
                h.candidates
                ∙ ap (λ u. take 128 (u ++ waiting current ns fs)) (candidates-flush_due n t st v));
            times = rw now (ap (◌∷◌ (add_u32 current timeout)) h.times);
          })
    ]
flush_loop-Looped current timeout ns ts fs st e1 e2 v = absurd (omega arith)
