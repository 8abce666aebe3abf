-- ===== src/Kcp/Sending/Written.antt =====
-- What the sending worker writes stands in its window, and what its methods leave alone.
use native.Mathlib.Decide.{dec_lt}
use gzv2ray_v.Kcp.Go.{sub_u32}
use gzv2ray_v.Prelude.{
  ℕ, suc, false, inl, inr, some, refl, arith, [], Bool-cases, ◌∷◌, List, ◌≡◌, All, ◌<◌, Bool, ◌≤◌,
  leb, map, if◌then◌else◌, All-imp, ◌∙◌, ltb, ap, sym, true, none, take, ◌||◌, length, Option, max,
  ◌==◌, not, All-take,
}
use gzv2ray_v.Kcp.Segment.{DataSegment, AckSegment}
use gzv2ray_v.Kcp.SendingWindow
use gzv2ray_v.Kcp.SendingWindow.{SendingWindow, sent_at}
use gzv2ray_v.Kcp.SendingWindow.Sent.{due, IsStamp}
use gzv2ray_v.Kcp.SendingWindow.Order.{Ascending, Below, payload, payload_above}
use gzv2ray_v.Kcp.Sending.{
  SendingWorker, process_receiving_next, process_ack, process_acks, raise_remote, after_acks,
  find_first_unacknowledged, on_packet_loss, report_loss, sub_u32,
}
use gzv2ray_v.Kcp.Sending
use gzv2ray_v.Kcp.Sending.Reliable.{IsValid, waits}
use gzv2ray_v.Kcp.Sending.Control.{
  flush-sends, stamp-IsStamp, settled, flush_empty, visited, flush_full,
}
use gzv2ray_v.Kcp.Sending.Acknowledge.{process_segment_open}

-- Every segment of an ascending window is the one under its number.
payload_own :
    (lo : ℕ) (c : List DataSegment)
    → Ascending lo c
    → All (λ s. (lo ≤ s.number) × (payload s.number c ≡ some s.payload)) c
unfolding payload
payload_own lo [] a = tt
payload_own lo (s ∷ c) a = (
  (a.0, ground arith),
  All-imp (λ t. (suc s.number ≤ t.number) × (payload t.number c ≡ some t.payload)) _
      (λ t h. (omega arith, ground (arith, h.1))) c (payload_own (suc s.number) c a.1),
)

All-Below : (hi : ℕ) (c : List DataSegment) → Below hi c → All (λ s. s.number < hi) c
All-Below hi [] b = tt
All-Below hi (s ∷ c) b = (b.0, All-Below hi c b.1)

module _ {κ} (P : DataSegment → Type κ) where
  All-due : (current : ℕ) (c : List DataSegment) → All P c → All P (due current c)
  unfolding due
  All-due current [] h = tt
  All-due current (s ∷ c) h = elim (Bool-cases (leb 0x7FFFFFFF (sub_u32 current s.timeout))) [
    | inl e ↦ rw e (All-due current c h.1)
    | inr e ↦ rw e (h.0, All-due current c h.1)
  ]

-- A payload of the sender's, under a number that was given.
abbrev pub IsFrom : (ℕ → List ℕ) → ℕ → DataSegment → Type 0
IsFrom sent hi s = (s.payload ≡ sent s.number) × (s.number < hi)

All-sent :
    (sent : ℕ → List ℕ) (hi : ℕ) (stamp : DataSegment → DataSegment) (current rto : ℕ)
    (c : List DataSegment)
    → IsStamp stamp
    → All (IsFrom sent hi) c
    → All (IsFrom sent hi) (map (sent_at stamp current rto) c)
unfolding sent_at
All-sent sent hi stamp current rto [] i h = tt
All-sent sent hi stamp current rto (s ∷ c) i h = (
  (i.payload _ ∙ h.0.0 ∙ ap sent (sym (i.number _)), rw (i.number _) h.0.1),
  All-sent sent hi stamp current rto c i h.1,
)

pub waits-below :
    (w : SendingWorker) → IsValid w → (n : ℕ) {b : List ℕ} → waits n w ≡ some b → n < w.next_number
waits-below w v n e = elim (dec_lt n w.next_number) [
  | yes l ↦ l
  | no g ↦ cc (e, payload_above n w.next_number w.window.cache v.below (omega arith))
]

-- The window of a valid worker that holds payloads of the sender's.
window-IsFrom :
    (sent : ℕ → List ℕ) (w : SendingWorker)
    → IsValid w
    → ((n : ℕ) (b : List ℕ) → waits n w ≡ some b → b ≡ sent n)
    → All (IsFrom sent w.next_number) w.window.cache
window-IsFrom sent w v h =
    All-imp
      (λ s.
        (w.first_unacknowledged ≤ s.number) × (payload s.number w.window.cache ≡ some s.payload))
      (IsFrom sent w.next_number) (λ s k. (h s.number s.payload k.1, waits-below w v s.number k.1))
      w.window.cache (payload_own w.first_unacknowledged w.window.cache v.ascending)

module _ (sent : ℕ → List ℕ) (congestion : Bool) (size rto conv : ℕ) (closing : Bool)
    (w : SendingWorker) (current : ℕ) where
  -- Each segment that a flush writes carries what was pushed under its number.
  pub flush-IsFrom :
      IsValid w
      → w.closed ≡ false
      → ((n : ℕ) (b : List ℕ) → waits n w ≡ some b → b ≡ sent n)
      → All (IsFrom sent w.next_number) (Sending.flush congestion size rto conv closing w current).1
  flush-IsFrom v o h =
      let (v', same, e) = flush-sends congestion size rto conv closing w current v o in
      rw e (
        All-sent sent w.next_number (Sending.stamp w conv closing) current rto
          (take (max 1 (Sending.congestion_window congestion size w)) (due current w.window.cache))
          (stamp-IsStamp w conv closing)
          (All-take (IsFrom sent w.next_number)
            (max 1 (Sending.congestion_window congestion size w)) (due current w.window.cache)
            (All-due (IsFrom sent w.next_number) current w.window.cache
              (window-IsFrom sent w v h))))

-- The next number and the mark of an open worker, which acknowledgements and flushes leave alone.
abbrev pub Same : SendingWorker → SendingWorker → Type 0
Same w w' = (w'.next_number ≡ w.next_number) × (w'.closed ≡ w.closed)

process_ack-Same : (w : SendingWorker) (number : ℕ) → Same w (process_ack w number).0
unfolding process_ack find_first_unacknowledged
process_ack-Same w number =
    elim (Bool-cases (
      ltb 0x7FFFFFFF (sub_u32 number w.first_unacknowledged)
      || ltb (sub_u32 number w.next_number) 0x7FFFFFFF)) [
        | inl g ↦ rw g (refl, refl)
        | inr g ↦ rw g (elim (Bool-cases (SendingWindow.remove w.window number).1) [
          | inl r ↦ rw r (refl, refl)
          | inr r ↦ rw r (refl, refl)
        ])
      ]

process_acks-Same :
    (numbers : List ℕ) (w : SendingWorker) (maxack : ℕ) (removed : Bool)
    → Same w (process_acks numbers w maxack removed).0
unfolding process_acks
process_acks-Same [] w maxack removed = (refl, refl)
process_acks-Same (n ∷ numbers) w maxack removed =
    let (w', r) = process_ack w n in
    let a = process_ack-Same w n in
    let b =
      process_acks-Same numbers w' (if ltb maxack n then n else maxack)
        (if ltb maxack n then r else removed) in
    (b.0 ∙ a.0, b.1 ∙ a.1)

after_acks-Same :
    (r : SendingWorker × ℕ × Bool) (current : ℕ) (seg : AckSegment) (rto : ℕ)
    → Same r.0 (after_acks r current seg rto).0
unfolding after_acks
after_acks-Same (w, maxack, false) current seg rto = (refl, refl)
after_acks-Same (w, maxack, true) current seg rto = (refl, refl)

pub process_segment-Same :
    (w : SendingWorker) (current : ℕ) (seg : AckSegment) (rto : ℕ)
    → w.closed ≡ false
    → Same w (Sending.process_segment w current seg rto).0
unfolding process_receiving_next raise_remote find_first_unacknowledged
process_segment-Same w current seg rto o = elim (Bool-cases (length seg.number_list == 0)) [
  | inl e ↦ rw (process_segment_open w current seg rto o, e) (refl, refl)
  | inr e ↦
      let w2 = process_receiving_next (raise_remote w seg.receiving_window) seg.receiving_next in
      let a = process_acks-Same seg.number_list w2 0 false in
      let b = after_acks-Same (process_acks seg.number_list w2 0 false) current seg rto in
      rw (process_segment_open w current seg rto o, e) (b.0 ∙ a.0, b.1 ∙ a.1)
]

module _ (congestion : Bool) (size rto conv : ℕ) (closing : Bool) (w : SendingWorker)
    (current : ℕ) where
  report_loss-Same :
      (loss : Option ℕ) (w1 : SendingWorker) → Same w1 (report_loss congestion size rto loss w1)
  unfolding report_loss on_packet_loss
  report_loss-Same none w1 = (refl, refl)
  report_loss-Same (some rate) w1 = elim (Bool-cases (not congestion || rto == 0)) [
    | inl off ↦ rw off (refl, refl)
    | inr on ↦ rw on (refl, refl)
  ]

  pub flush-Same :
      w.closed ≡ false → Same w (Sending.flush congestion size rto conv closing w current).0
  unfolding settled
  flush-Same o = elim (Bool-cases (SendingWindow.is_empty w.window)) [
    | inl e ↦ rw (flush_empty congestion size rto conv closing w current o e) (refl, refl)
    | inr e ↦
        let r =
          report_loss-Same (visited congestion size rto conv closing w current).2
            (settled congestion size rto conv closing w current) in
        rw (flush_full congestion size rto conv closing w current o e) r
  ]

pub process_receiving_next-Same :
    (w : SendingWorker) (una : ℕ) → Same w (process_receiving_next w una)
unfolding process_receiving_next find_first_unacknowledged
process_receiving_next-Same w una = (refl, refl)
