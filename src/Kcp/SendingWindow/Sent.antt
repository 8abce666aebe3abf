-- ===== src/Kcp/SendingWindow/Sent.antt =====
-- What a flush of the window sends: the first segments that are due, in order.
pub mod Marks
use gzv2ray_v.Prelude.{
  ℕ, ◌≡◌, ◌==◌, suc, true, false, inl, inr, refl, arith, [], Bool-cases, ◌∷◌, List, length,
  if◌then◌else◌, leb, ap, ltb, tests, max, ◌<◌, ◌++◌, ◌-◌, ◌^◌, map, take, ◌∙◌, append_assoc,
  take_of_length-le, sym, append-nil, ==_iff,
}
use gzv2ray_v.Kcp.Go.{sub_u32}
use gzv2ray_v.Kcp.Segment.{DataSegment}
use gzv2ray_v.Kcp.SendingWindow.{
  SendingWindow, Flush, sent_at, count_sent, flush_cache, flush, is_empty,
}
use gzv2ray_v.Kcp.SendingWindow.Visits.{Alike, Alike-refl}

-- The writer sets fields of its own (the conversation, the option and the sending next) and leaves
-- number and payload, and what the window keeps of a transmission.
pub record IsStamp (stamp : DataSegment → DataSegment) : Type 0 where
  pub number : (s : DataSegment) → (stamp s).number ≡ s.number
  pub payload : (s : DataSegment) → (stamp s).payload ≡ s.payload
  pub timestamp : (s : DataSegment) → (stamp s).timestamp ≡ s.timestamp
  pub timeout : (s : DataSegment) → (stamp s).timeout ≡ s.timeout
  pub transmit : (s : DataSegment) → (stamp s).transmit ≡ s.transmit

-- The segments whose time has come, in order.
unfoldable pub due : ℕ → List DataSegment → List DataSegment
due current [] = []
due current (s ∷ c) =
    let rest = due current c in
    if leb 0x7FFFFFFF (sub_u32 current s.timeout) then rest else s ∷ rest

module _ (stamp : DataSegment → DataSegment) (current rto max_in_flight : ℕ) where
  flush_wait :
      (s : DataSegment) (c : List DataSegment) (st : Flush)
      → leb 0x7FFFFFFF (sub_u32 current s.timeout) ≡ true
      → flush_cache stamp current rto max_in_flight (s ∷ c) st ≡ (
        s ∷ (flush_cache stamp current rto max_in_flight c st).0,
        (flush_cache stamp current rto max_in_flight c st).1,
      )
  unfolding flush_cache
  flush_wait s c st e = rw e

  flush_go :
      (s : DataSegment) (c : List DataSegment) (st : Flush)
      → leb 0x7FFFFFFF (sub_u32 current s.timeout) ≡ false
      → ltb (count_sent s (sent_at stamp current rto s) st).in_flight max_in_flight ≡ true
      → flush_cache stamp current rto max_in_flight (s ∷ c) st ≡ (
        sent_at stamp current rto s
            ∷ (flush_cache stamp current rto max_in_flight c
                (count_sent s (sent_at stamp current rto s) st)).0,
        (flush_cache stamp current rto max_in_flight c
            (count_sent s (sent_at stamp current rto s) st)).1,
      )
  unfolding flush_cache
  flush_go s c st e f = rw e (rw f)

  flush_stop :
      (s : DataSegment) (c : List DataSegment) (st : Flush)
      → leb 0x7FFFFFFF (sub_u32 current s.timeout) ≡ false
      → ltb (count_sent s (sent_at stamp current rto s) st).in_flight max_in_flight ≡ false
      → flush_cache stamp current rto max_in_flight (s ∷ c) st
        ≡ (sent_at stamp current rto s ∷ c, count_sent s (sent_at stamp current rto s) st)
  unfolding flush_cache
  flush_stop s c st e f = rw e (rw f)

  sent_at-Alike :
      (s : DataSegment)
      → IsStamp stamp
      → ((sent_at stamp current rto s).number ≡ s.number)
        × ((sent_at stamp current rto s).payload ≡ s.payload)
  unfolding sent_at
  sent_at-Alike s i = (i.number _, i.payload _)

  -- How many segments a flush may still write; one is always sent.
  pub budget : Flush → ℕ
  budget st = max 1 max_in_flight - st.in_flight

  counted :
      (s : DataSegment) (st : Flush)
      → max_in_flight < 2 ^ 32
      → st.in_flight < max 1 max_in_flight
      → ltb (count_sent s (sent_at stamp current rto s) st).in_flight max_in_flight ≡ true
      → (count_sent s (sent_at stamp current rto s) st).in_flight < max 1 max_in_flight
  unfolding count_sent
  counted s st m l f = omega (tests, f)

  spent :
      (s : DataSegment) (st : Flush)
      → max_in_flight < 2 ^ 32
      → st.in_flight < max 1 max_in_flight
      → ltb (count_sent s (sent_at stamp current rto s) st).in_flight max_in_flight ≡ true
      → budget st ≡ suc (budget (count_sent s (sent_at stamp current rto s) st))
  unfolding count_sent budget
  spent s st m l f = omega (tests, f)

  spent_last :
      (s : DataSegment) (st : Flush)
      → max_in_flight < 2 ^ 32
      → st.in_flight < max 1 max_in_flight
      → ltb (count_sent s (sent_at stamp current rto s) st).in_flight max_in_flight ≡ false
      → budget st ≡ 1
  unfolding count_sent budget
  spent_last s st m l f = omega (tests, f)

  -- What the visit has done when it stops.
  pub record Flushed (c : List DataSegment) (st : Flush) (out : List DataSegment × Flush)
      : Type 0 where
    pub alike : Alike c out.0
    pub written :
        out.1.written
        ≡ st.written ++ map (sent_at stamp current rto) (take (budget st) (due current c))

  written-count_sent :
      (s : DataSegment) (c : List DataSegment) (st : Flush) (n : ℕ)
      → leb 0x7FFFFFFF (sub_u32 current s.timeout) ≡ false
      → budget st ≡ suc n
      → (count_sent s (sent_at stamp current rto s) st).written
          ++ map (sent_at stamp current rto) (take n (due current c))
        ≡ st.written ++ map (sent_at stamp current rto) (take (budget st) (due current (s ∷ c)))
  unfolding count_sent due
  written-count_sent s c st n e b =
      rw (b, e) (append_assoc st.written (sent_at stamp current rto s ∷ []) _)

  flush_cache-Flushed :
      (c : List DataSegment) (st : Flush)
      → IsStamp stamp
      → max_in_flight < 2 ^ 32
      → st.in_flight < max 1 max_in_flight
      → Flushed c st (flush_cache stamp current rto max_in_flight c st)
  unfolding flush_cache due
  flush_cache-Flushed [] st i m l = record {
    alike = tt;
    written =
        rw (take_of_length-le {A = DataSegment} (budget st) [] (omega arith))
          (sym (append-nil st.written));
  }
  flush_cache-Flushed (s ∷ c) st i m l =
      elim (Bool-cases (leb 0x7FFFFFFF (sub_u32 current s.timeout))) [
        | inl e ↦
            let r = flush_cache-Flushed c st i m l in
            rw (flush_wait s c st e)
              (record { alike = (refl, refl, r.alike); written = rw e r.written })
        | inr e ↦
            elim (Bool-cases
              (ltb (count_sent s (sent_at stamp current rto s) st).in_flight max_in_flight)) [
                | inl f ↦
                    let r =
                      flush_cache-Flushed c (count_sent s (sent_at stamp current rto s) st) i m
                        (counted s st m l f) in
                    rw (flush_go s c st e f) (record {
                      alike = ((sent_at-Alike s i).0, (sent_at-Alike s i).1, r.alike);
                      written = r.written ∙ written-count_sent s c st _ e (spent s st m l f);
                    })
                | inr f ↦ rw (flush_stop s c st e f) (record {
                  alike = ((sent_at-Alike s i).0, (sent_at-Alike s i).1, Alike-refl c);
                  written = rw (e, spent_last s st m l f) refl;
                })
              ]
      ]

  pub take-due_nil :
      (n : ℕ) (c : List DataSegment)
      → length c ≡ 0
      → map (sent_at stamp current rto) (take n (due current c)) ≡ []
  unfolding due
  take-due_nil n [] h = rw (take_of_length-le {A = DataSegment} n [] (omega arith))
  take-due_nil n (s ∷ c) h = absurd (omega arith)

  -- A visit that starts with nothing written.
  flush_cache_start :
      (c : List DataSegment) (total : ℕ)
      → IsStamp stamp
      → max_in_flight < 2 ^ 32
      → let (c', st) =
          flush_cache stamp current rto max_in_flight c
            (record { total = total; lost = 0; in_flight = 0; written = [] }) in
        Alike c c'
        × (st.written
            ≡ map (sent_at stamp current rto) (take (max 1 max_in_flight) (due current c)))
  unfolding budget
  flush_cache_start c total i h =
      let r =
        flush_cache-Flushed c (record { total = total; lost = 0; in_flight = 0; written = [] }) i h
          (omega arith) in
      (
        r.alike,
        r.written
            ∙ ap (λ n. map (sent_at stamp current rto) (take n (due current c)))
                {x = max 1 max_in_flight - 0} {y = max 1 max_in_flight} (omega arith),
      )

pub flush-due :
    (stamp : DataSegment → DataSegment) (sw : SendingWindow) (current rto max_in_flight : ℕ)
    → IsStamp stamp
    → max_in_flight < 2 ^ 32
    → let (sw', written, rate) = flush stamp sw current rto max_in_flight in
      Alike sw.cache sw'.cache
      × (written
          ≡ map (sent_at stamp current rto) (take (max 1 max_in_flight) (due current sw.cache)))
unfolding flush is_empty
flush-due stamp sw current rto m i h = elim (Bool-cases (length sw.cache == 0)) [
  | inl e ↦ rw e (
    Alike-refl sw.cache,
    sym (take-due_nil stamp current rto m (max 1 m) sw.cache ((==_iff _ _).0 e)),
  )
  | inr e ↦ rw e (flush_cache_start stamp current rto m sw.cache sw.total_in_flight_size i h)
]
