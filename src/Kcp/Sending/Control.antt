-- ===== src/Kcp/Sending/Control.antt =====
-- Pacing: the control window, and what one flush of the worker sends.
use gzv2ray_v.Prelude.{
  ℕ, ◌≡◌, ◌≢◌, ◌==◌, true, inl, inr, refl, arith, Bool-cases, ◌≤◌, Bool, ◌<◌, not, ◌*◌, ◌^◌, ◌||◌,
  false, map, take, max, none, some, [], length, List, sym, Option, ==_iff, ◌∙◌,
}
use gzv2ray_v.Kcp.Go.{sub_u32}
use gzv2ray_v.Kcp.Segment.{DataSegment}
use gzv2ray_v.Kcp.SendingWindow
use gzv2ray_v.Kcp.SendingWindow.{SendingWindow, sent_at}
use gzv2ray_v.Kcp.SendingWindow.Visits.{Alike, payload-Alike}
use gzv2ray_v.Kcp.SendingWindow.Sent.{IsStamp, due, flush-due, take-due_nil}
use gzv2ray_v.Kcp.Sending.{
  SendingWorker, stamp, on_packet_loss, congestion_window, flush, report_loss,
}
use gzv2ray_v.Kcp.Sending.Reliable.{IsValid, waits}
use gzv2ray_v.Kcp.Sending.Acknowledge.{Alike-IsValid}

-- With congestion control on, a timeout known and a configured size of at least 8 and below 2^31, a
-- loss report leaves the control window between 16 and twice the configured size, whatever it was
-- before.
pub on_packet_loss_bounds :
    (in_flight_size rto : ℕ) (w : SendingWorker) (loss_rate : ℕ)
    → 8 ≤ in_flight_size
    → in_flight_size < 2 ^ 31
    → rto ≢ 0
    → let c = (on_packet_loss true in_flight_size rto w loss_rate).control_window in
      (16 ≤ c) × (c ≤ 2 * in_flight_size)
unfolding on_packet_loss
on_packet_loss_bounds size rto w loss_rate h1 h2 h3 = ground arith

-- A loss report changes the control window alone.
report_loss-keeps :
    (congestion : Bool) (size rto : ℕ) (loss : Option ℕ) (w : SendingWorker)
    → IsValid w
    → let w' = report_loss congestion size rto loss w in
      IsValid w' × ((n : ℕ) → waits n w' ≡ waits n w)
unfolding report_loss on_packet_loss
report_loss-keeps congestion size rto none w v = (v, λ n. refl)
report_loss-keeps congestion size rto (some rate) w v =
    elim (Bool-cases (not congestion || rto == 0)) [
      | inl off ↦ rw off (v, λ n. refl)
      | inr on ↦ rw on (
        record {
          ascending = v.ascending;
          below = v.below;
          first_le = v.first_le;
          no_wrap = v.no_wrap;
          span = v.span;
        },
        λ n. refl,
      )
    ]

pub stamp-IsStamp : (w : SendingWorker) (conv : ℕ) (closing : Bool) → IsStamp (stamp w conv closing)
unfolding stamp
stamp-IsStamp w conv closing = record {
  number = λ s. refl;
  payload = λ s. refl;
  timestamp = λ s. refl;
  timeout = λ s. refl;
  transmit = λ s. refl;
}

congestion_window-lt :
    (congestion : Bool) (size : ℕ) (w : SendingWorker)
    → congestion_window congestion size w < 2 ^ 32
unfolding congestion_window
congestion_window-lt congestion size w = omega arith

-- The congestion window is at most twenty times the configured size, and than the room that the
-- peer has left.
pub congestion_window-le :
    (congestion : Bool) (size : ℕ) (w : SendingWorker)
    → (congestion_window congestion size w ≤ 20 * size)
      × (congestion_window congestion size w
          ≤ 20 * sub_u32 w.remote_next_number w.first_unacknowledged)
unfolding congestion_window
congestion_window-le congestion size w = ground arith

empty-length : (sw : SendingWindow) → SendingWindow.is_empty sw ≡ true → length sw.cache ≡ 0
unfolding SendingWindow.is_empty
empty-length sw e = (==_iff _ _).0 e

module _ (congestion : Bool) (size rto conv : ℕ) (closing : Bool) (w : SendingWorker)
    (current : ℕ) where
  pub flush_empty :
      w.closed ≡ false
      → SendingWindow.is_empty w.window ≡ true
      → flush congestion size rto conv closing w current
        ≡ (record w { first_unacknowledged_updated = false }, [], w.first_unacknowledged_updated)
  unfolding flush
  flush_empty o e = simp (o, e)

  unfoldable pub visited : SendingWindow × List DataSegment × Option ℕ
  visited =
      SendingWindow.flush (stamp w conv closing) w.window current rto
        (congestion_window congestion size w)

  unfoldable pub settled : SendingWorker
  settled = record w { window = visited.0; first_unacknowledged_updated = false }

  pub flush_full :
      w.closed ≡ false
      → SendingWindow.is_empty w.window ≡ false
      → flush congestion size rto conv closing w current
        ≡ (report_loss congestion size rto visited.2 settled, visited.1, false)
  unfolding flush visited settled
  flush_full o e = simp (o, e)

  settled-keeps :
      IsValid w
      → Alike w.window.cache visited.0.cache
      → IsValid settled × ((n : ℕ) → waits n settled ≡ waits n w)
  unfolding settled
  settled-keeps v k =
      let u = Alike-IsValid w visited.0 v k in
      (
        record {
          ascending = u.ascending;
          below = u.below;
          first_le = u.first_le;
          no_wrap = u.no_wrap;
          span = u.span;
        },
        λ n. payload-Alike n w.window.cache visited.0.cache k,
      )

  -- One flush of an open worker whose invariant holds keeps the invariant and every payload under
  -- its number, and writes in order the first segments that are due, as many as the congestion
  -- window allows and one at least if one is due.
  pub flush-sends :
      IsValid w
      → w.closed ≡ false
      → let (w', written, ping) = flush congestion size rto conv closing w current in
        IsValid w'
        × ((n : ℕ) → waits n w' ≡ waits n w)
        × (written
            ≡ map
                (sent_at (stamp w conv closing) current rto)
                (take (max 1 (congestion_window congestion size w)) (due current w.window.cache)))
  unfolding visited
  flush-sends v o = elim (Bool-cases (SendingWindow.is_empty w.window)) [
    | inl e ↦ rw (flush_empty o e) (
      record {
        ascending = v.ascending;
        below = v.below;
        first_le = v.first_le;
        no_wrap = v.no_wrap;
        span = v.span;
      },
      λ n. refl,
      sym (
          take-due_nil (stamp w conv closing) current rto 0
            (max 1 (congestion_window congestion size w)) w.window.cache (empty-length w.window e)),
    )
    | inr e ↦
        let f =
          flush-due (stamp w conv closing) w.window current rto
            (congestion_window congestion size w) (stamp-IsStamp w conv closing)
            (congestion_window-lt congestion size w) in
        let k = settled-keeps v f.0 in
        let r = report_loss-keeps congestion size rto visited.2 settled k.0 in
        rw (flush_full o e) (r.0, λ n. r.1 n ∙ k.1 n, f.1)
  ]
