-- ===== src/Kcp/Receiving/Run.antt =====
-- Any sequence of the calls of a worker in use delivers the sender's stream in order.
use gzv2ray_v.Prelude.{
  ℕ, ◌≡◌, [], ◌∷◌, Bool, List, ◌++◌, ◌+◌, append-nil, All, append_assoc, ◌%◌, ◌^◌, refl,
}
use native.Mathlib.Nat.{add-zero}
use gzv2ray_v.Prelude.Dict.{lookup}
use gzv2ray_v.Buf.{bytes}
use gzv2ray_v.Kcp.Segment.{DataSegment}
use gzv2ray_v.Kcp.Receiving.{
  ReceivingWorker, process_sending_next, process_segment, read_multi_buffer, read, flush,
  new_receiving_worker,
}
use gzv2ray_v.Kcp.Receiving.Drain.{stream}
use gzv2ray_v.Kcp.Receiving.Stream.{
  InOrder, left_bytes, process_segment-InOrder, read_multi_buffer-ReadsOn, read-InOrder,
}

-- What the connection and its reader do to the worker, until Release ends it.
pub data Call : Type 0 where
  segment : DataSegment → Call
  sending_next : ℕ → Call
  read_all : Call
  read_bytes : ℕ → Call
  flush_acks : ℕ → ℕ → ℕ → Bool → Call

-- A call: the worker after it, and the bytes that it returns.
unfoldable pub call : Call → ReceivingWorker → ReceivingWorker × List ℕ
call (segment seg) w = (process_segment w seg, [])
call (sending_next n) w = (process_sending_next w n, [])
call read_all w = let (w', mb) = read_multi_buffer w in (w', bytes mb)
call (read_bytes n) w = read w n
call (flush_acks current rto conv closing) w = ((flush w current rto conv closing).0, [])

unfoldable pub run : List Call → ReceivingWorker → ReceivingWorker × List ℕ
unfolding call
run [] w = (w, [])
run (c ∷ calls) w = let (w', got) = call c w in let (w'', rest) = run calls w' in (w'', got ++ rest)

-- A segment that comes in is one that the sender sent under its number.
abbrev pub Comes : (ℕ → List ℕ) → Call → Type 0
Comes sent (segment seg) = seg.payload ≡ sent seg.number
Comes sent _ = Unit {0}

-- A call that returns no bytes and passes no number.
still :
    {sent : ℕ → List ℕ} {k : ℕ} {got : List ℕ} {w : ReceivingWorker}
    → InOrder sent k got w
    → InOrder sent (k + 0) (got ++ []) w
still {sent} {k} {got} {w} h = rw (add-zero, append-nil) h

call-InOrder :
    (sent : ℕ → List ℕ) (k : ℕ) (got : List ℕ) (w : ReceivingWorker) (c : Call)
    → Comes sent c
    → InOrder sent k got w
    → (more : ℕ) × InOrder sent (k + more) (got ++ (call c w).1) (call c w).0
unfolding call process_sending_next flush
call-InOrder sent k got w (segment seg) p h =
    (0, still (process_segment-InOrder sent k got w seg h p))
call-InOrder sent k got w (sending_next n) p h =
    (0, still (record { next = h.next; from = h.from; delivered = h.delivered }))
call-InOrder sent k got w read_all p h =
    let r = read_multi_buffer-ReadsOn sent k got w h in (r.more, r.in_order)
call-InOrder sent k got w (read_bytes n) p h = read-InOrder sent k got w n h
call-InOrder sent k got w (flush_acks current rto conv closing) p h =
    (0, still (record { next = h.next; from = h.from; delivered = h.delivered }))

pub fresh-InOrder : (sent : ℕ → List ℕ) (size : ℕ) → InOrder sent 0 [] (new_receiving_worker size)
unfolding new_receiving_worker stream lookup
fresh-InOrder sent size = record { next = refl; from = λ id seg e. cc e; delivered = refl }

run_extends :
    (sent : ℕ → List ℕ) (calls : List Call) (k : ℕ) (got : List ℕ) (w : ReceivingWorker)
    → All (Comes sent) calls
    → InOrder sent k got w
    → (k' : ℕ) × InOrder sent k' (got ++ (run calls w).1) (run calls w).0
unfolding run
run_extends sent [] k got w p h = (k, rw append-nil h)
run_extends sent (c ∷ calls) k got w p h =
    let (more, h1) = call-InOrder sent k got w c p.0 h in
    let (k', h2) = run_extends sent calls (k + more) (got ++ (call c w).1) (call c w).0 p.1 h1 in
    (k', rw (← append_assoc got (call c w).1 (run calls (call c w).0).1) h2)

-- From a fresh worker, whatever segments of the sender come, in any order, lost or repeated, and
-- whatever reads, flushes and calls of ProcessSendingNext stand between them: the bytes returned
-- so far, followed by those kept over, are the sender's first `k` payloads in order, for a `k` that
-- the worker counts in its next number.
pub run-stream :
    (sent : ℕ → List ℕ) (calls : List Call) (size : ℕ)
    → All (Comes sent) calls
    → let (w, got) = run calls (new_receiving_worker size) in
      (k : ℕ) × (got ++ left_bytes w.left_over ≡ stream sent k) × (w.next_number ≡ k % 2 ^ 32)
run-stream sent calls size p =
    let (k, h) =
      run_extends sent calls 0 [] (new_receiving_worker size) p (fresh-InOrder sent size) in
    (k, h.delivered, h.next)
