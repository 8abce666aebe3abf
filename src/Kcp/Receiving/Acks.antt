-- ===== src/Kcp/Receiving/Acks.antt =====
-- What the receiving worker acknowledges: whatever holds of the numbers that it notes holds of the
-- numbers that its acknowledgements carry.
use gzv2ray_v.Kcp.Go.{sub_u32}
use gzv2ray_v.Kcp.Segment.{DataSegment, AckSegment}
use gzv2ray_v.Prelude.{
  ℕ, suc, true, inl, inr, refl, arith, [], Bool-cases, ◌∷◌, List, All, length-append, ltb,
  All-append, length, All-split, ◌≡◌, leb, ap, Bool, map, All-take, ◌∙◌, sym, take,
}
use gzv2ray_v.Kcp.AckList
use gzv2ray_v.Kcp.AckList.{AckList, clear, add}
use gzv2ray_v.Kcp.AckList.Clear.{IsAligned, keep_from, clear-IsCleared, of_numbers, column}
use gzv2ray_v.Kcp.AckList.Flush.{due, waiting, rescheduled, all_numbers, flush-IsFlushed}
use gzv2ray_v.Kcp.Receiving
use gzv2ray_v.Kcp.Receiving.{
  ReceivingWorker, process_sending_next, process_segment, DataSegment, AckSegment, sub_u32, stamp,
}

length-rescheduled :
    (current timeout : ℕ) (fs : List ℕ) → length (rescheduled current timeout fs) ≡ length fs
unfolding rescheduled
length-rescheduled current timeout [] = refl
length-rescheduled current timeout (f ∷ fs) = ap suc (length-rescheduled current timeout fs)

number_list-stamp :
    (w : ReceivingWorker) (conv : ℕ) (closing : Bool) (a : AckSegment)
    → ((stamp w conv closing a).number_list ≡ a.number_list)
      × ((stamp w conv closing a).receiving_next ≡ w.next_number)
unfolding stamp
number_list-stamp w conv closing a = (refl, refl)

module _ {κ} (Q : ℕ → Type κ) where
  All-keep_from : (una : ℕ) (ns xs : List ℕ) → All Q xs → All Q (keep_from una ns xs)
  unfolding keep_from
  All-keep_from una [] xs h = tt
  All-keep_from una (n ∷ ns) [] h = tt
  All-keep_from una (n ∷ ns) (x ∷ xs) h = elim (Bool-cases (ltb n una)) [
    | inl e ↦ rw e (All-keep_from una ns xs h.1)
    | inr e ↦ rw e (h.0, All-keep_from una ns xs h.1)
  ]

  All-due : (current : ℕ) (ns fs : List ℕ) → All Q ns → All Q (due current ns fs)
  unfolding due
  All-due current [] fs h = tt
  All-due current (n ∷ ns) [] h = tt
  All-due current (n ∷ ns) (f ∷ fs) h = elim (Bool-cases (ltb current f)) [
    | inl e ↦ rw e (All-due current ns fs h.1)
    | inr e ↦ rw e (h.0, All-due current ns fs h.1)
  ]

  All-waiting : (current : ℕ) (ns fs : List ℕ) → All Q ns → All Q (waiting current ns fs)
  unfolding waiting
  All-waiting current [] fs h = tt
  All-waiting current (n ∷ ns) [] h = tt
  All-waiting current (n ∷ ns) (f ∷ fs) h = elim (Bool-cases (ltb current f)) [
    | inl e ↦ rw e (h.0, All-waiting current ns fs h.1)
    | inr e ↦ rw e (All-waiting current ns fs h.1)
  ]

  -- Of every number that a row of segments carries.
  All-number_lists :
      (segs : List AckSegment) → All Q (all_numbers segs) → All (λ a. All Q a.number_list) segs
  unfolding all_numbers
  All-number_lists [] h = tt
  All-number_lists (a ∷ segs) h =
      let (x, y) = All-split Q a.number_list (all_numbers segs) h in (x, All-number_lists segs y)

  -- The slices are aligned, and `Q` holds of the numbers noted.
  pub record Notes (l : AckList) : Type κ where
    pub aligned : IsAligned l
    pub numbers : All Q l.numbers

  clear-Notes : (l : AckList) (una : ℕ) → Notes l → Notes (clear l una)
  unfolding column
  clear-Notes l una h =
      let c = clear-IsCleared l una h.aligned in
      record {
        aligned = c.aligned;
        numbers = rw (c.entries of_numbers) (All-keep_from una l.numbers l.numbers h.numbers);
      }

  add-Notes :
      (l : AckList) (number timestamp : ℕ) → Q number → Notes l → Notes (add l number timestamp)
  unfolding add
  add-Notes l number timestamp q h = record {
    aligned = record {
      timestamps = omega (
        arith,
        length-append l.timestamps (timestamp ∷ []),
        length-append l.numbers (number ∷ []),
        h.aligned.timestamps,
      );
      next_flush = omega (
        arith,
        length-append l.next_flush (0 ∷ []),
        length-append l.numbers (number ∷ []),
        h.aligned.next_flush,
      );
    };
    numbers = All-append Q l.numbers (number ∷ []) h.numbers (q, tt);
  }

  pub process_sending_next-Notes :
      (w : ReceivingWorker) (number : ℕ)
      → Notes w.acklist
      → Notes (process_sending_next w number).acklist
  unfolding process_sending_next
  process_sending_next-Notes w number h = clear-Notes w.acklist number h

  pub process_segment-Notes :
      (w : ReceivingWorker) (seg : DataSegment)
      → (ltb (sub_u32 seg.number w.next_number) w.window_size ≡ true → Q seg.number)
      → Notes w.acklist
      → Notes (process_segment w seg).acklist
  unfolding process_segment
  process_segment-Notes w seg q h =
      elim (Bool-cases (leb w.window_size (sub_u32 seg.number w.next_number))) [
        | inl outside ↦ rw outside h
        | inr inside ↦ rw inside (
            add-Notes (clear w.acklist seg.sending_next) seg.number seg.timestamp (q (ground arith))
              (clear-Notes w.acklist seg.sending_next h))
      ]

  All-stamp :
      (w : ReceivingWorker) (conv : ℕ) (closing : Bool) (segs : List AckSegment)
      → All (λ a. All Q a.number_list) segs
      → All
          (λ a. All Q a.number_list × (a.receiving_next ≡ w.next_number))
          (map (stamp w conv closing) segs)
  All-stamp w conv closing [] h = tt
  All-stamp w conv closing (a ∷ segs) h =
      let (same, next) = number_list-stamp w conv closing a in
      ((rw same h.0, next), All-stamp w conv closing segs h.1)

  -- What a flush acknowledges was noted, under the worker's next number.
  pub flush-Notes :
      (w : ReceivingWorker) (current rto conv : ℕ) (closing : Bool)
      → Notes w.acklist
      → let (w', segs) = Receiving.flush w current rto conv closing in
        Notes w'.acklist × All (λ a. All Q a.number_list × (a.receiving_next ≡ w.next_number)) segs
  unfolding Receiving.flush
  flush-Notes w current rto conv closing h =
      let out = AckList.flush w.acklist current rto in
      let f = flush-IsFlushed w.acklist current rto h.aligned in
      let ns = w.acklist.numbers in
      let fs = w.acklist.next_flush in
      let due_ones = All-due current ns fs h.numbers in
      let others =
        All-take Q f.extra (waiting current ns fs) (All-waiting current ns fs h.numbers) in
      (
        record {
          aligned = record {
            timestamps =
                ap length f.same_timestamps ∙ h.aligned.timestamps ∙ ap length (sym f.same_numbers);
            next_flush =
                ap length f.times
                ∙ length-rescheduled current (AckList.flush_timeout rto) fs
                ∙ h.aligned.next_flush
                ∙ ap length (sym f.same_numbers);
          };
          numbers = rw f.same_numbers h.numbers;
        },
        All-stamp w conv closing out.1 (
            All-number_lists out.1 (
              rw f.numbers (
                All-append Q (due current ns fs) (take f.extra (waiting current ns fs)) due_ones
                  others))),
      )
