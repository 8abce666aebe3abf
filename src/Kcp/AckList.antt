-- ===== src/Kcp/AckList.antt =====
-- transport/internet/kcp/receiving.go and segment.go: the numbers that wait to be acknowledged, and
-- the segments that carry them.
pub mod Clear
pub mod Flush
use gzv2ray_v.Prelude.{
  ℕ, ◌==◌, zero, suc, true, false, [], ◌∷◌, if◌then◌else◌, ◌++◌, Bool, List, set, ltb, length,
  get_or, take, ◌/◌, ◌||◌, ◌+◌, not,
}
use gzv2ray_v.Kcp.Go.{sub_u32, add_u32}
use gzv2ray_v.Kcp.Segment.{AckSegment, ack_number_limit}

unfoldable pub new_segment : AckSegment
new_segment = record {
  conv = 0;
  option = 0;
  receiving_window = 0;
  receiving_next = 0;
  timestamp = 0;
  number_list = [];
}

-- A timestamp is taken if it is not older than the one there.
unfoldable pub put_timestamp : AckSegment → ℕ → AckSegment
put_timestamp s timestamp =
    if ltb (sub_u32 timestamp s.timestamp) 0x7FFFFFFF then record s { timestamp = timestamp } else s

unfoldable pub put_number : AckSegment → ℕ → AckSegment
put_number s number = record s { number_list = s.number_list ++ (number ∷ []) }

unfoldable pub is_full : AckSegment → Bool
is_full s = length s.number_list == ack_number_limit

unfoldable pub is_empty : AckSegment → Bool
is_empty s = length s.number_list == 0

-- The three parallel slices, `flushCandidates` being scratch space of `Flush`.
pub record AckList : Type 0 where
  pub timestamps : List ℕ
  pub numbers : List ℕ
  pub next_flush : List ℕ
  pub dirty : Bool

-- `NewAckList`
unfoldable pub new_ack_list : AckList
new_ack_list = record { timestamps = []; numbers = []; next_flush = []; dirty = false }

unfoldable pub add : AckList → ℕ → ℕ → AckList
add l number timestamp = record {
  timestamps = l.timestamps ++ (timestamp ∷ []);
  numbers = l.numbers ++ (number ∷ []);
  next_flush = l.next_flush ++ (0 ∷ []);
  dirty = true;
}

-- `l.numbers[count] = l.numbers[i]` and its two companions.
unfoldable pub move : AckList → ℕ → ℕ → AckList
move l count i = record l {
  timestamps = set l.timestamps count (get_or l.timestamps i 0);
  numbers = set l.numbers count (get_or l.numbers i 0);
  next_flush = set l.next_flush count (get_or l.next_flush i 0);
}

-- The loop of `Clear` from index `i`, with `rounds` entries to go.
unfoldable pub clear_loop : ℕ → ℕ → ℕ → ℕ → AckList → ℕ × AckList
clear_loop zero una i count l = (count, l)
clear_loop (suc rounds) una i count l =
    let skip = ltb (get_or l.numbers i 0) una in
    clear_loop rounds una (i + 1) (if skip then count else count + 1)
      (if skip then l else if i == count then l else move l count i)

-- `l.numbers = l.numbers[:count]` and its two companions, and `l.dirty = true`.
unfoldable pub truncate : AckList → ℕ → AckList
truncate l count = record {
  timestamps = take count l.timestamps;
  numbers = take count l.numbers;
  next_flush = take count l.next_flush;
  dirty = true;
}

unfoldable pub clear : AckList → ℕ → AckList
clear l una =
    let (count, l') = clear_loop (length l.numbers) una 0 0 l in
    if ltb count (length l'.numbers) then truncate l' count else l'

-- What the loop of `Flush` carries: the segment being filled, the candidates, the segments that
-- were written, and the dirty bit.
pub record Flushing : Type 0 where
  pub seg : AckSegment
  pub candidates : List ℕ
  pub written : List AckSegment
  pub dirty : Bool

unfoldable pub flush_timeout : ℕ → ℕ
flush_timeout rto = if ltb (rto / 2) 20 then 20 else rto / 2

-- One round at an entry that is not due, and at one that is.
unfoldable pub flush_skip : ℕ → Flushing → Flushing
flush_skip number st =
    if ltb (length st.candidates) 128
    then record st { candidates = st.candidates ++ (number ∷ []) }
    else st

unfoldable pub flush_due : ℕ → ℕ → Flushing → Flushing
unfolding is_full put_timestamp put_number
flush_due number timestamp st =
    let seg = put_timestamp (put_number st.seg number) timestamp in
    if is_full seg
    then record st { seg = new_segment; written = st.written ++ (seg ∷ []); dirty = false }
    else record st { seg = seg }

-- The loop of `Flush`: the new `nextFlush`. The slices have one length.
unfoldable pub flush_loop : ℕ → ℕ → List ℕ → List ℕ → List ℕ → Flushing → List ℕ × Flushing
unfolding flush_skip flush_due
flush_loop current timeout (number ∷ numbers) (timestamp ∷ timestamps) (next ∷ next_flush) st =
    let wait = ltb current next in
    let (rest, st') =
      flush_loop current timeout numbers timestamps next_flush
        (if wait then flush_skip number st else flush_due number timestamp st) in
    ((if wait then next else add_u32 current timeout) ∷ rest, st')
flush_loop current timeout numbers timestamps next_flush st = (next_flush, st)

-- `for _, number := range l.flushCandidates { if seg.IsFull() { break }; seg.PutNumber(number) }`
unfoldable pub put_candidates : List ℕ → AckSegment → AckSegment
unfolding is_full put_number
put_candidates [] seg = seg
put_candidates (number ∷ candidates) seg =
    let rest = put_candidates candidates (put_number seg number) in
    if is_full seg then seg else rest

unfoldable pub flush_start : AckList → Flushing
flush_start l = record { seg = new_segment; candidates = []; written = []; dirty = l.dirty }

-- `Flush`: the list after it, and the segments given to the writer, in order.
unfoldable pub flush : AckList → ℕ → ℕ → AckList × List AckSegment
unfolding flush_timeout flush_loop put_candidates is_empty
flush l current rto =
    let (next_flush, st) =
      flush_loop current (flush_timeout rto) l.numbers l.timestamps l.next_flush (flush_start l) in
    if st.dirty || not (is_empty st.seg)
    then (
      record l { next_flush = next_flush; dirty = false },
      st.written ++ (put_candidates st.candidates st.seg ∷ []),
    )
    else (record l { next_flush = next_flush; dirty = st.dirty }, st.written)
