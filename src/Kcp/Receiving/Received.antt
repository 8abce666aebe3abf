-- ===== src/Kcp/Receiving/Received.antt =====
-- What has arrived stays there: the numbers that the receiving worker has passed on or keeps.
use gzv2ray_v.Kcp.Receiving.Stream.{
  split_read, drained, read-split_read, read_multi_buffer_drain, read_multi_buffer_left,
}
use gzv2ray_v.Kcp.Go.{add_u32, sub_u32}
use gzv2ray_v.Kcp.Receiving.Drain.{drain_stop, drain_step}
use gzv2ray_v.Buf.{MultiBuffer, is_empty, split_bytes}
use gzv2ray_v.Kcp.Segment.{DataSegment}
use gzv2ray_v.Prelude.{
  ℕ, zero, suc, true, false, inl, inr, some, arith, [], Bool-cases, Option-cases, ◌∷◌, Bool, ◌≡◌,
  ◌≤◌, ltb, ◌<◌, if◌then◌else◌, ◌||◌, ◌==◌, ◌^◌, ◌++◌, refl, leb, length, ◌∙◌,
}
use gzv2ray_v.Prelude.Dict.{lookup, delete, lookup-delete, lookup-insert}
use gzv2ray_v.Kcp.ReceivingWindow.{ReceivingWindow, has, set}
use gzv2ray_v.Kcp.Receiving.{
  ReceivingWorker, drain, read_multi_buffer, read, process_segment, DataSegment, MultiBuffer,
  add_u32,
}

-- The number was read, or waits in the window.
abbrev pub received : ℕ → ReceivingWindow → ℕ → Bool
received next window n = ltb n next || has window n

abbrev pub IsReceived : ReceivingWorker → ℕ → Type 0
IsReceived w n = received w.next_number w.window n ≡ true

-- A step of the worker in a stream of `hi` segments: it loses nothing and invents nothing.
pub record Keeps (hi : ℕ) (next : ℕ) (window : ReceivingWindow) (next' : ℕ)
    (window' : ReceivingWindow) : Type 0 where
  pub forward : next ≤ next'
  pub bounded : next' ≤ hi
  pub stays : (n : ℕ) → received next window n ≡ true → received next' window' n ≡ true
  pub below : (n : ℕ) → has window' n ≡ true → n < hi

pub has-lookup :
    (window : ReceivingWindow) (n : ℕ) (seg : DataSegment)
    → lookup n window ≡ some seg
    → has window n ≡ true
unfolding has
has-lookup window n seg e = rw (e, has)

pub has-delete :
    (window : ReceivingWindow) (gone n : ℕ)
    → has (delete gone window) n ≡ (if gone == n then false else has window n)
unfolding has
has-delete window gone n = ground (arith, lookup-delete gone n window)

drain-Keeps :
    (hi fuel : ℕ) (window : ReceivingWindow) (next : ℕ) (mb : MultiBuffer)
    → hi < 2 ^ 32
    → next ≤ hi
    → ((n : ℕ) → has window n ≡ true → n < hi)
    → let (window', next', _) = drain fuel window next mb in Keeps hi next window next' window'
unfolding drain
drain-Keeps hi zero window next mb u le b = record {
  forward = omega arith;
  bounded = le;
  stays = λ n h. h;
  below = b;
}
drain-Keeps hi (suc fuel) window next mb u le b = elim (Option-cases (lookup next window)) [
  | inl gone ↦
      rw (drain_stop fuel window next mb gone)
        (record { forward = omega arith; bounded = le; stays = λ n h. h; below = b })
  | inr (seg, here) ↦
      let h = has-lookup window next seg here in
      let l = b next h in
      let r =
        drain-Keeps hi fuel (delete next window) (add_u32 next 1) (mb ++ (seg.payload ∷ [])) u
          (omega arith) (λ n k. ground (arith, has-delete window next n, b n)) in
      rw (drain_step fuel window next mb seg here) (record {
        forward = omega (arith, r.forward);
        bounded = r.bounded;
        stays = λ n k. r.stays n (ground (arith, has-delete window next n));
        below = r.below;
      })
]

-- A worker whose window holds numbers below `hi` alone, and that has not read past these.
pub record IsWithin (hi : ℕ) (w : ReceivingWorker) : Type 0 where
  pub read_le : w.next_number ≤ hi
  pub held : (n : ℕ) → has w.window n ≡ true → n < hi

abbrev pub Holds : ℕ → ReceivingWorker → ReceivingWorker → Type 0
Holds hi w w' = Keeps hi w.next_number w.window w'.next_number w'.window

pub Keeps-refl : (hi : ℕ) (w : ReceivingWorker) → IsWithin hi w → Holds hi w w
Keeps-refl hi w v = record {
  forward = omega arith;
  bounded = v.read_le;
  stays = λ n h. h;
  below = v.held;
}

pub has-set :
    (window : ReceivingWindow) (id n : ℕ) (seg : DataSegment)
    → has (set window id seg).0 n ≡ (if id == n then true else has window n)
unfolding has set
has-set window id n seg = ground (arith, lookup-insert id n seg window)

-- What `Read` does behind the reading leaves the window, the number and the acknowledgements.
pub split_read-same :
    (w : ReceivingWorker) (mb : MultiBuffer) (n : ℕ)
    → ((split_read w mb n).0.next_number ≡ w.next_number)
      × ((split_read w mb n).0.window ≡ w.window)
      × ((split_read w mb n).0.acklist ≡ w.acklist)
unfolding split_read
split_read-same w mb n = elim (Bool-cases (is_empty mb)) [
  | inl e ↦ rw e (refl, refl, refl)
  | inr e ↦ rw e (elim (Bool-cases (is_empty (split_bytes mb n).0)) [
    | inl f ↦ rw f (refl, refl, refl)
    | inr f ↦ rw f (refl, refl, refl)
  ])
]

-- Reading leaves the acknowledgements.
pub read_multi_buffer-acklist : (w : ReceivingWorker) → (read_multi_buffer w).0.acklist ≡ w.acklist
read_multi_buffer-acklist w = elim (Option-cases w.left_over) [
  | inl e ↦ rw (read_multi_buffer_drain w e)
  | inr (mb, e) ↦ rw (read_multi_buffer_left w mb e)
]

pub read-acklist : (w : ReceivingWorker) (n : ℕ) → (read w n).0.acklist ≡ w.acklist
read-acklist w n = rw (read-split_read w n) (
    (split_read-same (read_multi_buffer w).0 (read_multi_buffer w).1 n).2
    ∙ read_multi_buffer-acklist w)

module _ (hi : ℕ) (w : ReceivingWorker) (u : hi < 2 ^ 32) (v : IsWithin hi w) where
  pub read_multi_buffer-Keeps : Holds hi w (read_multi_buffer w).0
  unfolding drained
  read_multi_buffer-Keeps = elim (Option-cases w.left_over) [
    | inl e ↦
        rw (read_multi_buffer_drain w e)
          (drain-Keeps hi (suc (length w.window)) w.window w.next_number [] u v.read_le v.held)
    | inr (mb, e) ↦ rw (read_multi_buffer_left w mb e) (Keeps-refl hi w v)
  ]

  -- `Read` does to the window what `ReadMultiBuffer` does.
  pub read-Keeps : (n : ℕ) → Holds hi w (read w n).0
  read-Keeps n =
      let s = split_read-same (read_multi_buffer w).0 (read_multi_buffer w).1 n in
      rw (read-split_read w n, s.0, s.1) read_multi_buffer-Keeps

  pub process_segment-Keeps :
      (seg : DataSegment) → seg.number < hi → Holds hi w (process_segment w seg)
  unfolding process_segment
  process_segment-Keeps seg h =
      elim (Bool-cases (leb w.window_size (sub_u32 seg.number w.next_number))) [
        | inl outside ↦ rw outside (Keeps-refl hi w v)
        | inr inside ↦ rw inside (record {
          forward = omega arith;
          bounded = v.read_le;
          stays = λ n k. ground (arith, has-set w.window seg.number n seg);
          below = λ n k. ground (arith, has-set w.window seg.number n seg, v.held n);
        })
      ]
