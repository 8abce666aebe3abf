-- ===== src/Kcp/AckList/Clear.antt =====
-- `AckList.Clear` compacts the three slices in place; this is the filter that it computes.
use gzv2ray_v.Prelude.{
  ℕ, ◌≡◌, ◌==◌, zero, suc, inl, inr, refl, arith, [], Bool-cases, ◌∷◌, List, length, set,
  if◌then◌else◌, ◌≤◌, ltb, get_or, ◌<◌, take, ◌+◌, ◌++◌, drop, length-set, take-get_or, drop-set,
  ◌∙◌, ap, sym, ==_iff, take-set, true, false, drop-get_or, append-nil, append_assoc, length-take,
  lt→ltb, take_of_length-le, ltb→lt, le→ltb_false, ltb_false→le,
}
use gzv2ray_v.Kcp.AckList.{AckList, move, clear_loop, clear, truncate}

pub data Column : Type 0 where
  of_numbers of_timestamps of_next_flush : Column

unfoldable pub column : Column → AckList → List ℕ
column of_numbers l = l.numbers
column of_timestamps l = l.timestamps
column of_next_flush l = l.next_flush

-- The slices have one length.
pub record IsAligned (l : AckList) : Type 0 where
  pub timestamps : length l.timestamps ≡ length l.numbers
  pub next_flush : length l.next_flush ≡ length l.numbers

-- The entries of a slice whose number is not below `una`, in order.
unfoldable pub keep_from : ℕ → List ℕ → List ℕ → List ℕ
keep_from una (n ∷ ns) (x ∷ xs) =
    let rest = keep_from una ns xs in if ltb n una then rest else x ∷ rest
keep_from una _ _ = []

length-column :
    (col : Column) (l : AckList) → IsAligned l → length (column col l) ≡ length l.numbers
unfolding column
length-column of_numbers l a = refl
length-column of_timestamps l a = a.timestamps
length-column of_next_flush l a = a.next_flush

column-move :
    (col : Column) (l : AckList) (count i : ℕ)
    → column col (move l count i) ≡ set (column col l) count (get_or (column col l) i 0)
unfolding column move
column-move of_numbers l count i = refl
column-move of_timestamps l count i = refl
column-move of_next_flush l count i = refl

-- What a round leaves of the list at an entry that is kept.
kept : AckList → ℕ → ℕ → AckList
kept l count i = if i == count then l else move l count i

module _ (l : AckList) (count i : ℕ) (a : IsAligned l) (le : count ≤ i)
    (lt : i < length l.numbers) where
  take-kept :
      (col : Column)
      → take (count + 1) (column col (kept l count i))
        ≡ take count (column col l) ++ (get_or (column col l) i 0 ∷ [])
  unfolding kept
  take-kept col = elim (Bool-cases (i == count)) [
    | inl e ↦ rw e (
        take-get_or count (column col l) 0 (omega (arith, length-column col l a))
        ∙ ap (λ j. take count (column col l) ++ (get_or (column col l) j 0 ∷ []))
            (sym ((==_iff i count).0 e)))
    | inr e ↦
        rw (e, column-move col l count i)
          (take-set count (column col l) (get_or (column col l) i 0)
            (omega (arith, length-column col l a)))
  ]

  drop-kept :
      (col : Column) → drop (i + 1) (column col (kept l count i)) ≡ drop (i + 1) (column col l)
  unfolding kept
  drop-kept col = elim (Bool-cases (i == count)) [
    | inl e ↦ rw e
    | inr e ↦
        rw (e, column-move col l count i)
          (drop-set (i + 1) count (column col l) (get_or (column col l) i 0) (omega arith))
  ]

  drop-numbers-kept : drop (i + 1) (kept l count i).numbers ≡ drop (i + 1) l.numbers
  unfolding column
  drop-numbers-kept = drop-kept of_numbers

  kept_step :
      (una : ℕ) (col : Column)
      → take (count + 1) (column col (kept l count i))
          ++ keep_from una
              (drop (i + 1) (kept l count i).numbers)
              (drop (i + 1) (column col (kept l count i)))
        ≡ take count (column col l)
          ++ (get_or (column col l) i 0
              ∷ keep_from una (drop (i + 1) l.numbers) (drop (i + 1) (column col l)))
  kept_step una col =
      rw (take-kept col, drop-kept col, drop-numbers-kept)
        (append_assoc (take count (column col l)) (get_or (column col l) i 0 ∷ []) _)

  kept-IsAligned :
      IsAligned (kept l count i)
      × (length (kept l count i).numbers ≡ length l.numbers)
      × ((kept l count i).dirty ≡ l.dirty)
  unfolding kept move
  kept-IsAligned = ground (
    arith,
    length-set l.numbers count (get_or l.numbers i 0),
    length-set l.timestamps count (get_or l.timestamps i 0),
    length-set l.next_flush count (get_or l.next_flush i 0),
  )

-- What the loop has made of each slice when it stops.
record Compacted (una i count : ℕ) (l : AckList) (out : ℕ × AckList) : Type 0 where
  aligned : IsAligned out.1
  size : length out.1.numbers ≡ length l.numbers
  count_le : out.0 ≤ length l.numbers
  dirty : out.1.dirty ≡ l.dirty
  kept_entries :
      (col : Column)
      → take out.0 (column col out.1)
        ≡ take count (column col l) ++ keep_from una (drop i l.numbers) (drop i (column col l))

keep_from_nil : (una i : ℕ) (ns xs : List ℕ) → length ns ≤ i → keep_from una (drop i ns) xs ≡ []
unfolding keep_from
keep_from_nil una zero [] xs h = refl
keep_from_nil una (suc i) [] xs h = refl
keep_from_nil una zero (n ∷ ns) xs h = absurd (omega arith)
keep_from_nil una (suc i) (n ∷ ns) xs h = keep_from_nil una i ns xs (omega arith)

-- The filter at the entry that a round looks at.
keep_from-drop :
    (una i : ℕ) (ns xs : List ℕ)
    → i < length ns
    → length xs ≡ length ns
    → keep_from una (drop i ns) (drop i xs) ≡ (
        if ltb (get_or ns i 0) una
        then keep_from una (drop (i + 1) ns) (drop (i + 1) xs)
        else get_or xs i 0 ∷ keep_from una (drop (i + 1) ns) (drop (i + 1) xs))
unfolding keep_from
keep_from-drop una i ns xs h e = rw (drop-get_or i ns 0 h, drop-get_or i xs 0 (omega arith))

clear_loop-Compacted :
    (rounds una i count : ℕ) (l : AckList)
    → IsAligned l
    → count ≤ i
    → i + rounds ≡ length l.numbers
    → Compacted una i count l (clear_loop rounds una i count l)
unfolding clear_loop kept
clear_loop-Compacted zero una i count l a le e = record {
  aligned = a;
  size = refl;
  count_le = omega arith;
  dirty = refl;
  kept_entries = λ col.
      rw (keep_from_nil una i l.numbers (drop i (column col l)) (omega arith))
        (sym (append-nil (take count (column col l))));
}
clear_loop-Compacted (suc rounds) una i count l a le e =
    elim (Bool-cases (ltb (get_or l.numbers i 0) una)) [
      | inl skip ↦ rw skip (
          skipped skip
            (clear_loop-Compacted rounds una (i + 1) count l a (omega arith) (omega arith)))
      | inr keep ↦ rw keep (
          taken keep (
            clear_loop-Compacted rounds una (i + 1) (count + 1) (kept l count i) k.0 (omega arith)
              (omega (arith, k.1))))
    ]
  where
    k :
        IsAligned (kept l count i)
        × (length (kept l count i).numbers ≡ length l.numbers)
        × ((kept l count i).dirty ≡ l.dirty)
    k = kept-IsAligned l count i a le (omega arith)

    step :
        (col : Column)
        → take (count + 1) (column col (kept l count i))
            ++ keep_from una
                (drop (i + 1) (kept l count i).numbers)
                (drop (i + 1) (column col (kept l count i)))
          ≡ take count (column col l)
            ++ (get_or (column col l) i 0
                ∷ keep_from una (drop (i + 1) l.numbers) (drop (i + 1) (column col l)))
    step col = kept_step l count i a le (omega arith) una col

    skipped :
        {out : ℕ × AckList}
        → ltb (get_or l.numbers i 0) una ≡ true
        → Compacted una (i + 1) count l out
        → Compacted una i count l out
    skipped t c = record {
      aligned = c.aligned;
      size = c.size;
      count_le = c.count_le;
      dirty = c.dirty;
      kept_entries = λ col.
          c.kept_entries col
          ∙ ap (λ t. take count (column col l) ++ t)
              (sym (
                rw (
                  keep_from-drop una i l.numbers (column col l) (omega arith)
                      (length-column col l a),
                  t,
                )));
    }

    taken :
        {out : ℕ × AckList}
        → ltb (get_or l.numbers i 0) una ≡ false
        → Compacted una (i + 1) (count + 1) (kept l count i) out
        → Compacted una i count l out
    taken t c = record {
      aligned = c.aligned;
      size = c.size ∙ k.1;
      count_le = omega (arith, c.count_le, k.1);
      dirty = c.dirty ∙ k.2;
      kept_entries = λ col.
          c.kept_entries col
          ∙ step col
          ∙ ap (λ u. take count (column col l) ++ u)
              (sym (
                rw (
                  keep_from-drop una i l.numbers (column col l) (omega arith)
                      (length-column col l a),
                  t,
                )));
    }

column-truncate :
    (col : Column) (l : AckList) (count : ℕ)
    → column col (truncate l count) ≡ take count (column col l)
unfolding column truncate
column-truncate of_numbers l count = refl
column-truncate of_timestamps l count = refl
column-truncate of_next_flush l count = refl

truncate-IsAligned : (l : AckList) (count : ℕ) → IsAligned l → IsAligned (truncate l count)
unfolding truncate
truncate-IsAligned l count a = record {
  timestamps = omega (arith, length-take count l.timestamps, length-take count l.numbers);
  next_flush = omega (arith, length-take count l.next_flush, length-take count l.numbers);
}

-- What `Clear` has to make of a list.
pub record IsCleared (una : ℕ) (l out : AckList) : Type 0 where
  pub aligned : IsAligned out
  pub entries : (col : Column) → column col out ≡ keep_from una l.numbers (column col l)
  pub dirty : out.dirty ≡ (if ltb (length out.numbers) (length l.numbers) then true else l.dirty)

module _ (una : ℕ) (l : AckList) (out : ℕ × AckList) (c : Compacted una 0 0 l out) where
  IsCleared-truncate : out.0 < length out.1.numbers → IsCleared una l (truncate out.1 out.0)
  unfolding truncate
  IsCleared-truncate h = record {
    aligned = truncate-IsAligned out.1 out.0 c.aligned;
    entries = λ col. column-truncate col out.1 out.0 ∙ c.kept_entries col;
    dirty =
        rw
          (lt→ltb (length (take out.0 out.1.numbers)) (length l.numbers)
            (omega (arith, length-take out.0 out.1.numbers, c.size)))
          refl;
  }

  IsCleared-whole : length out.1.numbers ≤ out.0 → IsCleared una l out.1
  IsCleared-whole h = record {
    aligned = c.aligned;
    entries = λ col.
        sym (
          take_of_length-le out.0 (column col out.1)
            (omega (arith, length-column col out.1 c.aligned)))
        ∙ c.kept_entries col;
    dirty =
        rw (le→ltb_false (length out.1.numbers) (length l.numbers) (omega (arith, c.size))) c.dirty;
  }

-- On a list whose slices have one length, `Clear` keeps, in each of the three slices and in order,
-- exactly the entries whose number is not below `una`, and leaves the slices aligned. The list
-- becomes dirty if an entry went, and is as dirty as before if none did.
pub clear-IsCleared : (l : AckList) (una : ℕ) → IsAligned l → IsCleared una l (clear l una)
unfolding clear
clear-IsCleared l una a = elim (Bool-cases (ltb loop.0 (length loop.1.numbers))) [
  | inl e ↦ rw e (IsCleared-truncate una l loop c (ltb→lt _ _ e))
  | inr e ↦ rw e (IsCleared-whole una l loop c (ltb_false→le _ _ e))
]
  where
    loop : ℕ × AckList
    loop = clear_loop (length l.numbers) una 0 0 l

    c : Compacted una 0 0 l loop
    c = clear_loop-Compacted (length l.numbers) una 0 0 l a (omega arith) (omega arith)
