-- ===== src/Kcp/AckList/Flush.antt =====
-- `AckList.Flush`: what the segments that it writes acknowledge.
mod Loop
unfoldable pub use gzv2ray_v.Kcp.AckList.Flush.Loop.{
  due, waiting, rescheduled, all_numbers, IsShort,
}
use gzv2ray_v.Kcp.AckList.Flush.Loop.{
  all_numbers-append, All-append_one, taken, IsFlushing, Looped, flush_loop-Looped,
}
use gzv2ray_v.Prelude.{
  ℕ, ◌≡◌, ◌==◌, inl, inr, arith, tests, [], Bool-cases, ◌∷◌, List, length, ◌++◌, ltb, if◌then◌else◌,
  ◌≤◌, append-nil, All, ◌<◌, ◌+◌, sym, length-append, take, append_assoc, ap, ◌∙◌, take-append_long,
  refl, take_of_length-le, ◌-◌, suc, false, ◌≢◌, ==_iff, ◌||◌, not, length-take, take-take,
  nil_of_length,
}
use gzv2ray_v.Kcp.Go.{add_u32}
use gzv2ray_v.Kcp.Segment.{AckSegment}
use gzv2ray_v.Kcp.AckList.Clear.{IsAligned}
use gzv2ray_v.Kcp.AckList.{
  Flushing, new_segment, put_timestamp, put_number, is_full, flush_skip, flush_due, flush_loop,
  put_candidates, AckList, flush, flush_timeout, is_empty, not, flush_start,
}

-- Candidates fill what room the segment has.
number_list-put_candidates :
    (cs : List ℕ) (seg : AckSegment)
    → IsShort seg
    → (put_candidates cs seg).number_list
      ≡ seg.number_list ++ take (128 - length seg.number_list) cs
unfolding put_candidates is_full put_number
number_list-put_candidates [] seg h = sym (
    ap (λ t. seg.number_list ++ t)
      (take_of_length-le (128 - length seg.number_list) [] (omega arith))
    ∙ append-nil seg.number_list)
number_list-put_candidates (c ∷ cs) seg h = elim (Bool-cases (length seg.number_list == 128)) [
  | inl e ↦ rw e (rw (full ((==_iff _ _).0 e)) (sym (append-nil seg.number_list)))
  | inr e ↦ rw e (
      rw (room (ground arith)) (
        number_list-put_candidates cs (put_number seg c)
          (omega (arith, length-append seg.number_list (c ∷ []), room_le (ground arith)))
        ∙ append_assoc seg.number_list (c ∷ []) _
        ∙ ap (λ t. seg.number_list ++ (c ∷ take t cs)) less))
]
  where
    full : length seg.number_list ≡ 128 → 128 - length seg.number_list ≡ 0
    full e = omega arith

    room_le : length seg.number_list ≢ 128 → length seg.number_list < 128
    room_le e = omega arith

    room :
        length seg.number_list ≢ 128
        → 128 - length seg.number_list ≡ suc (127 - length seg.number_list)
    room e = omega arith

    less : 128 - length (seg.number_list ++ (c ∷ [])) ≡ 127 - length seg.number_list
    less = omega (arith, length-append seg.number_list (c ∷ []))

-- What `Flush` has to do to a list.
pub record IsFlushed (current rto : ℕ) (l : AckList) (out : AckList × List AckSegment)
    : Type 0 where
  pub short : All IsShort out.1
  pub extra : ℕ
  pub numbers :
      all_numbers out.1
      ≡ due current l.numbers l.next_flush ++ take extra (waiting current l.numbers l.next_flush)
  pub times : out.0.next_flush ≡ rescheduled current (flush_timeout rto) l.next_flush
  pub same_numbers : out.0.numbers ≡ l.numbers
  pub same_timestamps : out.0.timestamps ≡ l.timestamps
  pub clean : out.0.dirty ≡ false

flush_start-IsFlushing : (l : AckList) → IsFlushing (flush_start l)
unfolding flush_start new_segment
flush_start-IsFlushing l = record { room = omega arith; candidates = omega arith; written = tt }

module _ (current rto : ℕ) (l : AckList) (out : List ℕ × Flushing)
    (h : Looped current (flush_timeout rto) l.numbers l.next_flush (flush_start l) out) where
  taken-out :
      all_numbers out.1.written ++ out.1.seg.number_list ≡ due current l.numbers l.next_flush
  unfolding taken flush_start new_segment all_numbers
  taken-out = h.numbers

  candidates-out : out.1.candidates ≡ take 128 (waiting current l.numbers l.next_flush)
  unfolding flush_start
  candidates-out = h.candidates

  spare : ℕ
  spare = 128 - length out.1.seg.number_list

  length-last : length (take spare out.1.candidates) ≤ spare
  length-last = omega (arith, length-take spare out.1.candidates)

  last :
      (put_candidates out.1.candidates out.1.seg).number_list
      ≡ out.1.seg.number_list ++ take spare out.1.candidates
  unfolding spare
  last = number_list-put_candidates out.1.candidates out.1.seg (omega (arith, h.valid.room))

  IsFlushed-last : IsFlushed current rto l (
    record l { next_flush = out.0; dirty = false },
    out.1.written ++ (put_candidates out.1.candidates out.1.seg ∷ []),
  )
  IsFlushed-last = record {
    short =
        All-append_one out.1.written (put_candidates out.1.candidates out.1.seg) h.valid.written (
          rw last (
            unfold spare in
            omega (
              arith,
              length-append out.1.seg.number_list (take spare out.1.candidates),
              length-last,
              h.valid.room,
            )));
    extra = spare;
    numbers =
        all_numbers-append out.1.written (put_candidates out.1.candidates out.1.seg)
        ∙ ap (λ t. all_numbers out.1.written ++ t) last
        ∙ sym (
            append_assoc (all_numbers out.1.written) out.1.seg.number_list
              (take spare out.1.candidates))
        ∙ ap (λ t. t ++ take spare out.1.candidates) taken-out
        ∙ ap (λ t. due current l.numbers l.next_flush ++ t)
            (ap (take spare) candidates-out
              ∙ take-take spare 128 (waiting current l.numbers l.next_flush)
                  (unfold spare in omega arith));
    times = h.times;
    same_numbers = refl;
    same_timestamps = refl;
    clean = refl;
  }

  IsFlushed-none :
      (out.1.dirty ≡ false)
      → length out.1.seg.number_list ≡ 0
      → IsFlushed current rto l
          (record l { next_flush = out.0; dirty = out.1.dirty }, out.1.written)
  IsFlushed-none d e = record {
    short = h.valid.written;
    extra = 0;
    numbers =
        sym (append-nil (all_numbers out.1.written))
        ∙ ap (λ t. all_numbers out.1.written ++ t) (sym (nil_of_length out.1.seg.number_list e))
        ∙ taken-out
        ∙ sym (append-nil (due current l.numbers l.next_flush));
    times = h.times;
    same_numbers = refl;
    same_timestamps = refl;
    clean = d;
  }

-- On a list whose slices have one length, `Flush` writes segments of at most 128 numbers each.
-- Together they carry every number that is due, in order, and after these only numbers that wait,
-- from the front. A due entry is rescheduled by the timeout, every other keeps its time, numbers
-- and timestamps stay, and the list is clean.
pub flush-IsFlushed :
    (l : AckList) (current rto : ℕ) → IsAligned l → IsFlushed current rto l (flush l current rto)
unfolding flush is_empty
flush-IsFlushed l current rto a =
    elim (Bool-cases (st.dirty || not (length st.seg.number_list == 0))) [
      | inl e ↦ rw e (IsFlushed-last current rto l loop h)
      | inr e ↦ rw e (IsFlushed-none current rto l loop h (ground arith) (ground arith))
    ]
  where
    loop : List ℕ × Flushing
    loop =
        flush_loop current (flush_timeout rto) l.numbers l.timestamps l.next_flush (flush_start l)

    st : Flushing
    st = loop.1

    h : Looped current (flush_timeout rto) l.numbers l.next_flush (flush_start l) loop
    h =
        flush_loop-Looped current (flush_timeout rto) l.numbers l.timestamps l.next_flush
          (flush_start l) a.timestamps a.next_flush (flush_start-IsFlushing l)
