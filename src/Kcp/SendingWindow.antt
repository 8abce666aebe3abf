-- ===== src/Kcp/SendingWindow.antt =====
-- transport/internet/kcp/sending.go: SendingWindow, the segments that are sent and not acknowledged,
-- oldest first. The list of the source holds pointers, so what the writer sets in a segment stays in
-- the window; `stamp` is what the writer sets.
pub mod Order
pub mod Visits
pub mod Sent
use gzv2ray_v.Prelude.{
  ℕ, ◌==◌, true, false, none, some, [], ◌∷◌, List, length, Bool, Option, if◌then◌else◌, ◌%◌, ◌++◌,
  leb, ◌||◌, ltb, ◌-◌, ◌^◌, ◌&&◌, ◌/◌, not, ◌*◌,
}
use mathlib.Core.Option
use gzv2ray_v.Kcp.Go.{sub_u32, add_u32}
use gzv2ray_v.Kcp.Segment.{DataSegment}

pub record SendingWindow : Type 0 where
  pub cache : List DataSegment
  pub total_in_flight_size : ℕ

-- `NewSendingWindow`
unfoldable pub new_sending_window : SendingWindow
new_sending_window = record { cache = []; total_in_flight_size = 0 }

-- `Len`, a conversion to `uint32`.
unfoldable pub len : SendingWindow → ℕ
len sw = length sw.cache % 2 ^ 32

unfoldable pub is_empty : SendingWindow → Bool
is_empty sw = length sw.cache == 0

unfoldable pub new_data_segment : ℕ → List ℕ → DataSegment
new_data_segment number b = record {
  conv = 0;
  option = 0;
  timestamp = 0;
  number = number;
  sending_next = 0;
  payload = b;
  timeout = 0;
  transmit = 0;
}

unfoldable pub push : SendingWindow → ℕ → List ℕ → SendingWindow
unfolding new_data_segment
push sw number b = record sw { cache = sw.cache ++ (new_data_segment number b ∷ []) }

-- `FirstNumber`, which the code calls on a window that is not empty.
unfoldable pub first_number : SendingWindow → Option ℕ
first_number sw = elim sw.cache [ [] ↦ none | seg ∷ _ ↦ some seg.number ]

-- The loop of `Clear`.
unfoldable pub clear_cache : List DataSegment → ℕ → List DataSegment
clear_cache [] una = []
clear_cache (seg ∷ cache) una =
    let rest = clear_cache cache una in if leb una seg.number then seg ∷ cache else rest

unfoldable pub clear : SendingWindow → ℕ → SendingWindow
unfolding clear_cache
clear sw una = record sw { cache = clear_cache sw.cache una }

-- `Visit` with the visitor of `HandleFastAck`, which stops at the number and behind it.
unfoldable pub fast_ack_cache : List DataSegment → ℕ → ℕ → List DataSegment
fast_ack_cache [] number rto = []
fast_ack_cache (seg ∷ cache) number rto =
    let rest = fast_ack_cache cache number rto in
    if number == seg.number || ltb 0x7FFFFFFF (sub_u32 number seg.number)
    then seg ∷ cache
    else (if ltb 0 seg.transmit && ltb (rto / 3) seg.timeout
        then record seg { timeout = seg.timeout - rto / 3 }
        else seg)
      ∷ rest

unfoldable pub handle_fast_ack : SendingWindow → ℕ → ℕ → SendingWindow
unfolding fast_ack_cache
handle_fast_ack sw number rto = record sw { cache = fast_ack_cache sw.cache number rto }

-- What the visitor of `Flush` counts and writes.
pub record Flush : Type 0 where
  pub total : ℕ
  pub lost : ℕ
  pub in_flight : ℕ
  pub written : List DataSegment

-- A segment as it is sent again at `current`.
unfoldable pub sent_at : (DataSegment → DataSegment) → ℕ → ℕ → DataSegment → DataSegment
sent_at stamp current rto seg = stamp (record seg {
  timeout = add_u32 current rto;
  timestamp = current;
  transmit = add_u32 seg.transmit 1;
})

unfoldable pub count_sent : DataSegment → DataSegment → Flush → Flush
count_sent seg seg' st = record {
  total = if seg.transmit == 0 then add_u32 st.total 1 else st.total;
  lost = if seg.transmit == 0 then st.lost else add_u32 st.lost 1;
  in_flight = add_u32 st.in_flight 1;
  written = st.written ++ (seg' ∷ []);
}

-- `Visit` with the visitor of `Flush`: it goes on until `max_in_flight` segments are written.
unfoldable pub flush_cache :
    (DataSegment → DataSegment) → ℕ → ℕ → ℕ → List DataSegment → Flush → List DataSegment × Flush
unfolding sent_at count_sent
flush_cache stamp current rto max_in_flight [] st = ([], st)
flush_cache stamp current rto max_in_flight (seg ∷ cache) st =
    if leb 0x7FFFFFFF (sub_u32 current seg.timeout)
    then (let (rest, st') = flush_cache stamp current rto max_in_flight cache st in
        (seg ∷ rest, st'))
    else (let seg' = sent_at stamp current rto seg in
        let st1 = count_sent seg seg' st in
        if ltb st1.in_flight max_in_flight
        then (let (rest, st') = flush_cache stamp current rto max_in_flight cache st1 in
            (seg' ∷ rest, st'))
        else (seg' ∷ cache, st1))

-- `Flush`: the window after it, the segments written in order, and the loss rate if it is reported.
unfoldable pub flush :
    (DataSegment → DataSegment)
    → SendingWindow
    → ℕ
    → ℕ
    → ℕ
    → SendingWindow × List DataSegment × Option ℕ
unfolding flush_cache is_empty
flush stamp sw current rto max_in_flight =
    if is_empty sw
    then (sw, [], none)
    else let start : Flush = record {
      total = sw.total_in_flight_size;
      lost = 0;
      in_flight = 0;
      written = [];
    } in
      let (cache, st) = flush_cache stamp current rto max_in_flight sw.cache start in
      (
        record { cache = cache; total_in_flight_size = st.total },
        st.written,
        (if ltb 0 st.in_flight && not (st.total == 0)
            then some (st.lost * 100 % 2 ^ 32 / st.total)
            else none),
      )

-- The loop of `Remove`, which stops at the first greater number.
unfoldable pub remove_from : List DataSegment → ℕ → Option (List DataSegment)
remove_from [] number = none
remove_from (seg ∷ cache) number =
    let rest = remove_from cache number in
    if ltb number seg.number
    then none
    else if seg.number == number
    then some cache
    else Option.map (λ r. seg ∷ r) rest

unfoldable pub remove : SendingWindow → ℕ → SendingWindow × Bool
unfolding remove_from
remove sw number = elim (remove_from sw.cache number) [
  | none ↦ (sw, false)
  | some cache ↦
      (record { cache = cache; total_in_flight_size = sw.total_in_flight_size - 1 }, true)
]
