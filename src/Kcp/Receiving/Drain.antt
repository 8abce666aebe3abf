-- ===== src/Kcp/Receiving/Drain.antt =====
-- The loop of `ReadMultiBuffer` reads whole payloads on from the sender's stream.
use gzv2ray_v.Prelude.{
  ℕ, ◌≡◌, zero, suc, inl, inr, none, some, arith, [], Option-cases, List, ◌++◌, ◌+◌, length, ◌%◌,
  ◌<◌, ◌^◌, ◌∙◌, ap, ◌∷◌, append-nil, sym, append_assoc, ap₂,
}
use gzv2ray_v.Prelude.Dict.{lookup, delete, lookup-insert, lookup-delete, length-delete-lt}
use gzv2ray_v.Buf.{MultiBuffer, bytes, bytes-append}
use gzv2ray_v.Kcp.Go.{add_u32}
use gzv2ray_v.Kcp.Segment.{DataSegment}
use gzv2ray_v.Kcp.ReceivingWindow
use gzv2ray_v.Kcp.ReceivingWindow.{ReceivingWindow}
use gzv2ray_v.Kcp.Receiving.{drain, List, length}

-- The first `k` payloads of a sender that numbers them by a wrapping `uint32`.
unfoldable pub stream : (ℕ → List ℕ) → ℕ → List ℕ
stream sent zero = []
stream sent (suc k) = stream sent k ++ sent (k % 2 ^ 32)

-- Every waiting segment holds the payload that was sent under its number.
abbrev pub IsFrom : (ℕ → List ℕ) → ReceivingWindow → Type 0
IsFrom sent window =
    (id : ℕ) (seg : DataSegment) → lookup id window ≡ some seg → seg.payload ≡ sent id

pub remove-none :
    (window : ReceivingWindow) (id : ℕ)
    → lookup id window ≡ none
    → ReceivingWindow.remove window id ≡ (window, none)
unfolding ReceivingWindow.remove
remove-none window id e = rw (e, ReceivingWindow.remove)

pub remove-some :
    (window : ReceivingWindow) (id : ℕ) (seg : DataSegment)
    → lookup id window ≡ some seg
    → ReceivingWindow.remove window id ≡ (delete id window, some seg)
unfolding ReceivingWindow.remove
remove-some window id seg e = rw (e, ReceivingWindow.remove)

pub delete-IsFrom :
    (sent : ℕ → List ℕ) (window : ReceivingWindow) (n : ℕ)
    → IsFrom sent window
    → IsFrom sent (delete n window)
delete-IsFrom sent window n h id seg e = h id seg (ground (arith, lookup-delete n id window))

pub set-IsFrom :
    (sent : ℕ → List ℕ) (window : ReceivingWindow) (seg : DataSegment)
    → IsFrom sent window
    → seg.payload ≡ sent seg.number
    → IsFrom sent (ReceivingWindow.set window seg.number seg).0
unfolding ReceivingWindow.set
set-IsFrom sent window seg h p id other e = elim (Option-cases (lookup seg.number window)) [
  | inl free ↦ ground (
    arith,
    lookup-insert seg.number id seg window,
    h id other,
    rw (free, ReceivingWindow.set) at e,
  )
  | inr (old, here) ↦ h id other (rw (here, ReceivingWindow.set) at e)
]

-- What the loop of `ReadMultiBuffer` has done when it stops.
pub record Drained (sent : ℕ → List ℕ) (k : ℕ) (p : List ℕ)
    (out : ReceivingWindow × ℕ × MultiBuffer) : Type 0 where
  pub more : ℕ
  pub next : out.1 ≡ (k + more) % 2 ^ 32
  pub from : IsFrom sent out.0
  pub read : p ++ bytes out.2 ≡ stream sent (k + more)
  pub stopped : lookup out.1 out.0 ≡ none

pub drain_stop :
    (fuel : ℕ) (window : ReceivingWindow) (next : ℕ) (mb : MultiBuffer)
    → lookup next window ≡ none
    → drain (suc fuel) window next mb ≡ (window, next, mb)
unfolding drain
drain_stop fuel window next mb e =
    rw (remove-none window next e, drain) (rw (remove-none window next e))

pub drain_step :
    (fuel : ℕ) (window : ReceivingWindow) (next : ℕ) (mb : MultiBuffer) (seg : DataSegment)
    → lookup next window ≡ some seg
    → drain (suc fuel) window next mb
      ≡ drain fuel (delete next window) (add_u32 next 1) (mb ++ (seg.payload ∷ []))
unfolding drain
drain_step fuel window next mb seg e =
    rw (remove-some window next seg e, drain) (rw (remove-some window next seg e))

module _ (sent : ℕ → List ℕ) (p : List ℕ) where
  pub read_next :
      (k next : ℕ) (mb : MultiBuffer) (payload : List ℕ)
      → next ≡ k % 2 ^ 32
      → p ++ bytes mb ≡ stream sent k
      → payload ≡ sent next
      → p ++ bytes (mb ++ (payload ∷ [])) ≡ stream sent (suc k)
  unfolding stream bytes
  read_next k next mb payload e h f =
      ap (λ t. p ++ t)
        (bytes-append mb (payload ∷ []) ∙ ap (λ t. bytes mb ++ t) (append-nil payload))
      ∙ sym (append_assoc p (bytes mb) payload)
      ∙ ap₂ ◌++◌ h (f ∙ ap sent e)

  pub drain-Drained :
      (fuel : ℕ) (window : ReceivingWindow) (k next : ℕ) (mb : MultiBuffer)
      → length window < fuel
      → next ≡ k % 2 ^ 32
      → IsFrom sent window
      → p ++ bytes mb ≡ stream sent k
      → Drained sent k p (drain fuel window next mb)
  drain-Drained zero window k next mb l e f h = absurd (omega arith)
  drain-Drained (suc fuel) window k next mb l e f h = elim (Option-cases (lookup next window)) [
    | inl gone ↦ rw (drain_stop fuel window next mb gone) (record {
      more = 0;
      next = e ∙ omega arith;
      from = f;
      read = h ∙ ap (stream sent) {x = k} {y = k + 0} (omega arith);
      stopped = gone;
    })
    | inr (seg, here) ↦
        let r =
          drain-Drained fuel (delete next window) (suc k) (add_u32 next 1)
            (mb ++ (seg.payload ∷ [])) (omega (arith, length-delete-lt next window seg here))
            (omega arith) (delete-IsFrom sent window next f)
            (read_next k next mb seg.payload e h (f next seg here)) in
        rw (drain_step fuel window next mb seg here) (record {
          more = suc r.more;
          next = r.next ∙ omega arith;
          from = r.from;
          read = r.read ∙ ap (stream sent) {x = suc k + r.more} {y = k + suc r.more} (omega arith);
          stopped = r.stopped;
        })
  ]
