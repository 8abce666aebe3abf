-- ===== src/Kcp/Receiving/Unwrapped.antt =====
-- Reading while the numbers have not wrapped round: the next number counts the payloads read.
use mathlib.Core.Path.{subst}
use gzv2ray_v.Buf.{MultiBuffer, bytes}
use gzv2ray_v.Prelude.{
  ℕ, zero, suc, true, inl, inr, arith, [], Option-cases, ◌∷◌, List, ◌<◌, ◌^◌, ◌++◌, length, ◌≡◌,
  append-nil, ◌≤◌, ◌∙◌, sym, ap,
}
use gzv2ray_v.Prelude.Dict.{lookup, delete, length-delete-lt}
use gzv2ray_v.Kcp.Go.{add_u32}
use gzv2ray_v.Kcp.ReceivingWindow.{ReceivingWindow, has}
use gzv2ray_v.Kcp.Receiving.{ReceivingWorker, drain, read_multi_buffer, read, MultiBuffer}
use gzv2ray_v.Kcp.Receiving.Drain.{stream, IsFrom, drain_stop, drain_step, read_next, delete-IsFrom}
use gzv2ray_v.Kcp.Receiving.Stream.{
  InOrder, read_multi_buffer-ReadsOn, split_read, read-split_read, drained, split_read-InOrder,
  read_multi_buffer_drain, read_multi_buffer_left,
}
use gzv2ray_v.Kcp.Receiving.Received.{
  IsWithin, has-lookup, has-delete, read_multi_buffer-Keeps, split_read-same,
}

module _ (sent : ℕ → List ℕ) (p : List ℕ) (hi : ℕ) (u : hi < 2 ^ 32) where
  drain-stream :
      (fuel : ℕ) (window : ReceivingWindow) (next : ℕ) (mb : MultiBuffer)
      → length window < fuel
      → ((n : ℕ) → has window n ≡ true → n < hi)
      → next ≤ hi
      → IsFrom sent window
      → p ++ bytes mb ≡ stream sent next
      → p ++ bytes (drain fuel window next mb).2 ≡ stream sent (drain fuel window next mb).1
  drain-stream zero window next mb l b le f h = absurd (omega arith)
  drain-stream (suc fuel) window next mb l b le f h = elim (Option-cases (lookup next window)) [
    | inl gone ↦ rw (drain_stop fuel window next mb gone) h
    | inr (seg, here) ↦
        let low = b next (has-lookup window next seg here) in
        rw (drain_step fuel window next mb seg here) (
          drain-stream fuel (delete next window) (add_u32 next 1) (mb ++ (seg.payload ∷ []))
            (omega (arith, length-delete-lt next window seg here))
            (λ n k. ground (arith, has-delete window next n, b n)) (omega arith)
            (delete-IsFrom sent window next f)
            (read_next sent p next next mb seg.payload (omega arith) h (f next seg here)
              ∙ ap (stream sent) {x = suc next} {y = add_u32 next 1} (omega arith)))
  ]

module _ (sent : ℕ → List ℕ) (hi : ℕ) (got : List ℕ) (w : ReceivingWorker) (u : hi < 2 ^ 32)
    (v : IsWithin hi w) (h : InOrder sent w.next_number got w) where
  read_multi_buffer-stream :
      let (w', mb) = read_multi_buffer w in got ++ bytes mb ≡ stream sent w'.next_number
  unfolding drained bytes
  read_multi_buffer-stream = elim (Option-cases w.left_over) [
    | inl e ↦ rw (read_multi_buffer_drain w e) (
        drain-stream sent got hi u (suc (length w.window)) w.window w.next_number [] (omega arith)
          v.held v.read_le h.from (rw e at h.delivered))
    | inr (mb, e) ↦ rw (read_multi_buffer_left w mb e) (rw e at h.delivered)
  ]

  pub read_multi_buffer-InOrder :
      let (w', mb) = read_multi_buffer w in InOrder sent w'.next_number (got ++ bytes mb) w'
  read_multi_buffer-InOrder =
      let r = read_multi_buffer-ReadsOn sent w.next_number got w h in
      let k = read_multi_buffer-Keeps hi w u v in
      record {
        next = omega (arith, k.bounded);
        from = r.in_order.from;
        delivered =
            rw r.nothing_left
              (append-nil (got ++ bytes (read_multi_buffer w).1) ∙ read_multi_buffer-stream);
      }

  pub read-InOrder_exact :
      (n : ℕ) → InOrder sent (read w n).0.next_number (got ++ (read w n).1) (read w n).0
  read-InOrder_exact n =
      let w1 = (read_multi_buffer w).0 in
      let mb = (read_multi_buffer w).1 in
      let r = read_multi_buffer-ReadsOn sent w.next_number got w h in
      let s = split_read-same w1 mb n in
      let i =
        split_read-InOrder sent w1.next_number got w1 mb read_multi_buffer-InOrder r.nothing_left
          n in
      rw (read-split_read w n) (
        subst (λ k. InOrder sent k (got ++ (split_read w1 mb n).1) (split_read w1 mb n).0) (sym s.0)
          i)
