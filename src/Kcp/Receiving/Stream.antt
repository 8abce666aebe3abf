-- ===== src/Kcp/Receiving/Stream.antt =====
-- Delivery in order: what a reader has got is a prefix of the sender's stream.
use gzv2ray_v.Prelude.{
  ℕ, ◌≡◌, suc, inl, inr, none, some, arith, [], Option-cases, List, ◌++◌, ◌+◌, length, ◌%◌, ◌^◌,
  ◌∙◌, ap, Bool-cases, append-nil, Option, leb, sym, append_assoc, refl, if◌then◌else◌,
}
use gzv2ray_v.Prelude.Dict.{lookup}
use gzv2ray_v.Buf.{MultiBuffer, bytes, is_empty, bytes_of_is_empty, split_bytes, bytes-split_bytes}
use gzv2ray_v.Kcp.Go.{sub_u32}
use gzv2ray_v.Kcp.Segment.{DataSegment}
use gzv2ray_v.Kcp.ReceivingWindow.{ReceivingWindow}
use gzv2ray_v.Kcp.Receiving.{ReceivingWorker, process_segment, drain, read_multi_buffer, read}
use gzv2ray_v.Kcp.Receiving.Drain.{stream, IsFrom, set-IsFrom, drain-Drained}

abbrev pub left_bytes : Option MultiBuffer → List ℕ
left_bytes none = []
left_bytes (some mb) = bytes mb

-- The bytes that the reader got and those kept over are the first `k` payloads of the stream, the
-- next number is the `k`-th, and what waits is what was sent.
pub record InOrder (sent : ℕ → List ℕ) (k : ℕ) (got : List ℕ) (w : ReceivingWorker) : Type 0 where
  pub next : w.next_number ≡ k % 2 ^ 32
  pub from : IsFrom sent w.window
  pub delivered : got ++ left_bytes w.left_over ≡ stream sent k

pub process_segment-InOrder :
    (sent : ℕ → List ℕ) (k : ℕ) (got : List ℕ) (w : ReceivingWorker) (seg : DataSegment)
    → InOrder sent k got w
    → seg.payload ≡ sent seg.number
    → InOrder sent k got (process_segment w seg)
unfolding process_segment
process_segment-InOrder sent k got w seg h e =
    elim (Bool-cases (leb w.window_size (sub_u32 seg.number w.next_number))) [
      | inl outside ↦ rw outside h
      | inr inside ↦ rw inside (record {
        next = h.next;
        from = set-IsFrom sent w.window seg h.from e;
        delivered = h.delivered;
      })
    ]

pub read_multi_buffer_left :
    (w : ReceivingWorker) (mb : MultiBuffer)
    → w.left_over ≡ some mb
    → read_multi_buffer w ≡ (record w { left_over = none }, mb)
unfolding read_multi_buffer
read_multi_buffer_left w mb e = rw (e, read_multi_buffer)

unfoldable pub drained : ReceivingWorker → ReceivingWindow × ℕ × MultiBuffer
drained w = drain (suc (length w.window)) w.window w.next_number []

pub read_multi_buffer_drain :
    (w : ReceivingWorker)
    → w.left_over ≡ none
    → read_multi_buffer w
      ≡ (record w { window = (drained w).0; next_number = (drained w).1 }, (drained w).2)
unfolding read_multi_buffer drained
read_multi_buffer_drain w e = ground arith

-- What a read has to do.
pub record ReadsOn (sent : ℕ → List ℕ) (k : ℕ) (got : List ℕ) (w : ReceivingWorker)
    (out : ReceivingWorker × MultiBuffer) : Type 0 where
  pub more : ℕ
  pub in_order : InOrder sent (k + more) (got ++ bytes out.1) out.0
  pub nothing_left : out.0.left_over ≡ none
  pub exhausted : w.left_over ≡ none → lookup out.0.next_number out.0.window ≡ none

-- `ReadMultiBuffer` on a worker that has delivered the sender's first `k` payloads in order returns
-- bytes that continue the stream by whole payloads (or what was kept over), and keeps nothing over.
-- If nothing was kept over before, the number that the worker then waits for is not there.
pub read_multi_buffer-ReadsOn :
    (sent : ℕ → List ℕ) (k : ℕ) (got : List ℕ) (w : ReceivingWorker)
    → InOrder sent k got w
    → ReadsOn sent k got w (read_multi_buffer w)
unfolding bytes
read_multi_buffer-ReadsOn sent k got w h = elim (Option-cases w.left_over) [
  | inr (mb, e) ↦ rw (read_multi_buffer_left w mb e) (record {
    more = 0;
    in_order = record {
      next = h.next ∙ omega arith;
      from = h.from;
      delivered =
          append-nil (got ++ bytes mb)
          ∙ rw e at h.delivered
          ∙ ap (stream sent) {x = k} {y = k + 0} (omega arith);
    };
    nothing_left = refl;
    exhausted = λ n. absurd (cc (sym n ∙ e));
  })
  | inl e ↦
      let d =
        drain-Drained sent got (suc (length w.window)) w.window k w.next_number [] (omega arith)
          h.next h.from (rw e at h.delivered) in
      rw (read_multi_buffer_drain w e) (
        unfold drained in
        record {
          more = d.more;
          in_order = record {
            next = d.next;
            from = d.from;
            delivered =
                ap (λ t. (got ++ bytes (drained w).2) ++ left_bytes t) e
                ∙ append-nil (got ++ bytes (drained w).2)
                ∙ d.read;
          };
          nothing_left = e;
          exhausted = λ n. d.stopped;
        })
]

-- `Read` on what `ReadMultiBuffer` gave it: bytes are split off, and the rest is kept over.
unfoldable pub split_read : ReceivingWorker → MultiBuffer → ℕ → ReceivingWorker × List ℕ
split_read w mb n =
    if is_empty mb
    then (w, [])
    else let (rest, got) = split_bytes mb n in
      if is_empty rest then (w, got) else (record w { left_over = some rest }, got)

pub read-split_read :
    (w : ReceivingWorker) (n : ℕ)
    → read w n ≡ split_read (read_multi_buffer w).0 (read_multi_buffer w).1 n
unfolding read split_read
read-split_read w n = refl

module _ (sent : ℕ → List ℕ) (k : ℕ) (got : List ℕ) (w : ReceivingWorker) (mb : MultiBuffer)
    (h : InOrder sent k (got ++ bytes mb) w) (e : w.left_over ≡ none) where
  -- What is copied and what is kept make up what was read.
  delivered_split :
      (copied rest : List ℕ) → copied ++ rest ≡ bytes mb → (got ++ copied) ++ rest ≡ stream sent k
  delivered_split copied rest p =
      append_assoc got copied rest
      ∙ ap (λ t. got ++ t) p
      ∙ sym (append-nil (got ++ bytes mb))
      ∙ rw e at h.delivered

  left_is_nil : left_bytes w.left_over ≡ []
  left_is_nil = rw e

  pub split_read-InOrder :
      (n : ℕ) → InOrder sent k (got ++ (split_read w mb n).1) (split_read w mb n).0
  unfolding split_read
  split_read-InOrder n = elim (Bool-cases (is_empty mb)) [
    | inl m ↦ rw m (record {
      next = h.next;
      from = h.from;
      delivered =
          delivered_split [] (left_bytes w.left_over) (left_is_nil ∙ sym (bytes_of_is_empty mb m));
    })
    | inr m ↦ rw m (elim (Bool-cases (is_empty (split_bytes mb n).0)) [
      | inl r ↦ rw r (record {
        next = h.next;
        from = h.from;
        delivered = delivered_split (split_bytes mb n).1 (left_bytes w.left_over) (
            ap (λ t. (split_bytes mb n).1 ++ t)
              (left_is_nil ∙ sym (bytes_of_is_empty (split_bytes mb n).0 r))
            ∙ bytes-split_bytes mb n);
      })
      | inr r ↦ rw r (record {
        next = h.next;
        from = h.from;
        delivered =
            delivered_split (split_bytes mb n).1 (bytes (split_bytes mb n).0)
              (bytes-split_bytes mb n);
      })
    ])
  ]

-- `Read` hands on a prefix of what `ReadMultiBuffer` read, and keeps the rest over.
pub read-InOrder :
    (sent : ℕ → List ℕ) (k : ℕ) (got : List ℕ) (w : ReceivingWorker) (n : ℕ)
    → InOrder sent k got w
    → (more : ℕ) × InOrder sent (k + more) (got ++ (read w n).1) (read w n).0
read-InOrder sent k got w n h =
    let r = read_multi_buffer-ReadsOn sent k got w h in
    (
      r.more,
      rw (read-split_read w n) (
          split_read-InOrder sent (k + r.more) got (read_multi_buffer w).0 (read_multi_buffer w).1
            r.in_order r.nothing_left n),
    )
