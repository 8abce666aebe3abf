-- ===== src/Kcp/SendingWindow/Sent/Marks.antt =====
-- What a flush leaves in the window and writes, segment by segment.
use mathlib.Core.Path.{subst}
use gzv2ray_v.Prelude.{
  ℕ, ◌≡◌, ◌==◌, suc, true, false, inl, inr, arith, [], Bool-cases, ◌∷◌, List, length, leb, ltb, max,
  ◌<◌, ◌++◌, ◌^◌, ◌∙◌, append_assoc, sym, append-nil, ==_iff, ◌+◌, ◌%◌, nil_of_length,
}
use gzv2ray_v.Kcp.Go.{sub_u32}
use gzv2ray_v.Kcp.Segment.{DataSegment}
use gzv2ray_v.Kcp.SendingWindow.{
  SendingWindow, Flush, sent_at, count_sent, flush_cache, flush, is_empty,
}
use gzv2ray_v.Kcp.SendingWindow.Sent.{
  IsStamp, flush_wait, flush_go, flush_stop, budget, counted, spent, spent_last,
}

-- `s'` is `s` as it has just been transmitted.
pub record IsSent (current rto : ℕ) (s s' : DataSegment) : Type 0 where
  pub number : s'.number ≡ s.number
  pub payload : s'.payload ≡ s.payload
  pub timestamp : s'.timestamp ≡ current
  pub timeout : s'.timeout ≡ (current + rto) % 2 ^ 32
  pub transmit : s'.transmit ≡ (s.transmit + 1) % 2 ^ 32

-- Of a window, the first so many segments whose time has come are transmitted: a window behind it
-- that has them in their places, every other segment untouched, and the segments written.
pub data Marks (current rto : ℕ)
    : ℕ → List DataSegment → List DataSegment → List DataSegment → Type 0 where
  ends : {n : ℕ} → Marks current rto n [] [] []
  is_full : {c : List DataSegment} → Marks current rto 0 c c []
  waits :
      {n : ℕ} {s : DataSegment} {c c' written : List DataSegment}
      → leb 0x7FFFFFFF (sub_u32 current s.timeout) ≡ true
      → Marks current rto n c c' written
      → Marks current rto n (s ∷ c) (s ∷ c') written
  sends :
      {n : ℕ} {s s' : DataSegment} {c c' written : List DataSegment}
      → leb 0x7FFFFFFF (sub_u32 current s.timeout) ≡ false
      → IsSent current rto s s'
      → Marks current rto n c c' written
      → Marks current rto (suc n) (s ∷ c) (s' ∷ c') (s' ∷ written)

module _ (stamp : DataSegment → DataSegment) (current rto max_in_flight : ℕ) (i : IsStamp stamp)
    (m : max_in_flight < 2 ^ 32) where
  sent_at-IsSent : (s : DataSegment) → IsSent current rto s (sent_at stamp current rto s)
  unfolding sent_at
  sent_at-IsSent s = record {
    number = i.number _;
    payload = i.payload _;
    timestamp = i.timestamp _;
    timeout = i.timeout _;
    transmit = i.transmit _;
  }

  -- What a visit adds to the segments written, and leaves of the window.
  record IsVisited (c : List DataSegment) (st : Flush) (out : List DataSegment × Flush)
      : Type 0 where
    added : List DataSegment
    marks : Marks current rto (budget stamp current rto max_in_flight st) c out.0 added
    written : out.1.written ≡ st.written ++ added

  written-count_sent :
      (s : DataSegment) (st : Flush) (added : List DataSegment)
      → (count_sent s (sent_at stamp current rto s) st).written ++ added
        ≡ st.written ++ (sent_at stamp current rto s ∷ added)
  unfolding count_sent
  written-count_sent s st added = append_assoc st.written (sent_at stamp current rto s ∷ []) added

  sent_on :
      (s : DataSegment) (c : List DataSegment) (st : Flush)
      → leb 0x7FFFFFFF (sub_u32 current s.timeout) ≡ false
      → st.in_flight < max 1 max_in_flight
      → ltb (count_sent s (sent_at stamp current rto s) st).in_flight max_in_flight ≡ true
      → (let st1 = count_sent s (sent_at stamp current rto s) st in
          IsVisited c st1 (flush_cache stamp current rto max_in_flight c st1))
      → IsVisited (s ∷ c) st (flush_cache stamp current rto max_in_flight (s ∷ c) st)
  sent_on s c st e l f r = rw (flush_go stamp current rto max_in_flight s c st e f) (record {
    added = sent_at stamp current rto s ∷ r.added;
    marks =
        rw (spent stamp current rto max_in_flight s st m l f) (sends e (sent_at-IsSent s) r.marks);
    written = r.written ∙ written-count_sent s st r.added;
  })

  sent_last :
      (s : DataSegment) (c : List DataSegment) (st : Flush)
      → leb 0x7FFFFFFF (sub_u32 current s.timeout) ≡ false
      → st.in_flight < max 1 max_in_flight
      → ltb (count_sent s (sent_at stamp current rto s) st).in_flight max_in_flight ≡ false
      → IsVisited (s ∷ c) st (flush_cache stamp current rto max_in_flight (s ∷ c) st)
  sent_last s c st e l f = rw (flush_stop stamp current rto max_in_flight s c st e f) (record {
    added = sent_at stamp current rto s ∷ [];
    marks =
        rw (spent_last stamp current rto max_in_flight s st m l f)
          (sends e (sent_at-IsSent s) is_full);
    written =
        sym (append-nil (count_sent s (sent_at stamp current rto s) st).written)
        ∙ written-count_sent s st [];
  })

  flush_cache-IsVisited :
      (c : List DataSegment) (st : Flush)
      → st.in_flight < max 1 max_in_flight
      → IsVisited c st (flush_cache stamp current rto max_in_flight c st)
  unfolding flush_cache
  flush_cache-IsVisited [] st l = record {
    added = [];
    marks = ends;
    written = sym (append-nil st.written);
  }
  flush_cache-IsVisited (s ∷ c) st l =
      let st1 = count_sent s (sent_at stamp current rto s) st in
      elim (Bool-cases (leb 0x7FFFFFFF (sub_u32 current s.timeout))) [
        | inl e ↦
            let r = flush_cache-IsVisited c st l in
            rw (flush_wait stamp current rto max_in_flight s c st e)
              (record { added = r.added; marks = waits e r.marks; written = r.written })
        | inr e ↦ elim (Bool-cases (ltb st1.in_flight max_in_flight)) [
          | inl f ↦
              sent_on s c st e l f
                (flush_cache-IsVisited c st1 (counted stamp current rto max_in_flight s st m l f))
          | inr f ↦ sent_last s c st e l f
        ]
      ]

  budget_start :
      (total : ℕ)
      → budget stamp current rto max_in_flight
          (record { total = total; lost = 0; in_flight = 0; written = [] })
        ≡ max 1 max_in_flight
  unfolding budget
  budget_start total = omega arith

  -- A visit that starts with nothing written.
  flush_cache_marks :
      (c : List DataSegment) (total : ℕ)
      → let (c', st) =
          flush_cache stamp current rto max_in_flight c
            (record { total = total; lost = 0; in_flight = 0; written = [] }) in
        Marks current rto (max 1 max_in_flight) c c' st.written
  flush_cache_marks c total =
      let start : Flush = record { total = total; lost = 0; in_flight = 0; written = [] } in
      let r = flush_cache-IsVisited c start (omega arith) in
      let c' = (flush_cache stamp current rto max_in_flight c start).0 in
      subst (λ w. Marks current rto (max 1 max_in_flight) c c' w) (sym r.written)
        (subst (λ n. Marks current rto n c c' r.added) (budget_start total) r.marks)

-- For a writer that leaves alone the number, the payload, the time, the timeout and the count of
-- transmissions, and a `uint32` limit, `Flush` transmits in order the first segments that are due, as
-- many as `max_in_flight` allows and one at least if one is due. Each stays in its place in the
-- window, as it is written, with its number and payload, the time, the timeout behind it and one
-- transmission more, wrapping round in 32 bits; every other segment is untouched.
pub flush-Marks :
    (stamp : DataSegment → DataSegment) (sw : SendingWindow) (current rto max_in_flight : ℕ)
    → IsStamp stamp
    → max_in_flight < 2 ^ 32
    → let (sw', written, rate) = flush stamp sw current rto max_in_flight in
      Marks current rto (max 1 max_in_flight) sw.cache sw'.cache written
unfolding flush is_empty
flush-Marks stamp sw current rto m i h = elim (Bool-cases (length sw.cache == 0)) [
  | inl e ↦ rw (e, nil_of_length sw.cache ((==_iff _ _).0 e)) ends
  | inr e ↦ rw e (flush_cache_marks stamp current rto m i h sw.cache sw.total_in_flight_size)
]
