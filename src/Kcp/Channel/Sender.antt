-- ===== src/Kcp/Channel/Sender.antt =====
-- The steps of the sender's half.
use mathlib.Core.Path.{subst}
use gzv2ray_v.Kcp.Go.{IsU32}
use gzv2ray_v.Kcp.Segment.{DataSegment, AckSegment}
use gzv2ray_v.Kcp.Sending.{SendingWorker}
use gzv2ray_v.Prelude.{
  ℕ, suc, true, inl, inr, none, some, arith, [], Bool-cases, ◌∷◌, List, ◌≡◌, Bool, ◌≤◌, ◌<◌, ltb,
  All, ◌++◌, leb, ◌^◌, ◌⊎◌, All-append, All-imp, ◌+◌, ◌∙◌, sym, refl, ◌==◌, ap, ==_iff,
}
use gzv2ray_v.Kcp.Channel.{Channel, SendingWorker, DataSegment, AckSegment}
use gzv2ray_v.Kcp.Sending
use gzv2ray_v.Kcp.SendingWindow
use gzv2ray_v.Kcp.Channel.Reliable.{IsReliable, SenderStep, IsTrue}
use gzv2ray_v.Kcp.Channel.Receiver.{received_below}
use gzv2ray_v.Kcp.Receiving.Received.{IsReceived}
use gzv2ray_v.Kcp.Sending.Reliable.{
  IsValid, waits, contains, waits-process_receiving_next, process_receiving_next-IsValid,
}
use gzv2ray_v.Kcp.Sending.Written.{
  IsFrom, flush-IsFrom, flush-Same, process_segment-Same, process_receiving_next-Same,
}
use gzv2ray_v.Kcp.Sending.Acknowledge.{
  push-keeps, process_segment-acknowledges, pushed, push_closed, push_full, push_open,
}
use gzv2ray_v.Kcp.Sending.Control.{flush-sends}

push-closed : (w : SendingWorker) (b : List ℕ) → (Sending.push w b).0.closed ≡ w.closed
unfolding pushed
push-closed w b = elim (Bool-cases w.closed) [
  | inl c ↦ rw (push_closed w b c) refl
  | inr o ↦ elim (Bool-cases (ltb w.window_size (SendingWindow.len w.window))) [
    | inl full ↦ rw (push_full w b o full) refl
    | inr room ↦ rw (push_open w b o room) refl
  ]
]

contains_All {κ} : (Q : ℕ → Type κ) (ns : List ℕ) (n : ℕ) → All Q ns → contains ns n ≡ true → Q n
contains_All Q [] n h c = cc c
contains_All Q (x ∷ ns) n h c = elim (Bool-cases (x == n)) [
  | inl e ↦ subst Q ((==_iff x n).0 e) h.0
  | inr e ↦ contains_All Q ns n h.1 (rw e at c)
]

module _ (sent : ℕ → List ℕ) (s : Channel) (v : IsReliable sent s) where
  -- A step that neither gives a number nor keeps what it should not.
  settled_step :
      (w : SendingWorker) (segments : List DataSegment)
      → IsValid w
      → (w.next_number ≡ s.sender.next_number) × (w.closed ≡ s.sender.closed)
      → All (IsFrom sent s.sender.next_number) segments
      → ((n : ℕ) (b : List ℕ) → waits n w ≡ some b → waits n s.sender ≡ some b)
      → ((n : ℕ) → waits n w ≡ none → (waits n s.sender ≡ none) ⊎ IsReceived s.receiver n)
      → SenderStep sent s w segments
  settled_step w segments valid same written old gone = record {
    sends = record {
      valid = valid;
      is_open = same.1 ∙ v.sends.is_open;
      pushed = λ n b e. v.sends.pushed n b (old n b e);
      written =
          All-imp (IsFrom sent s.sender.next_number) (IsFrom sent w.next_number)
            (λ x h. (h.0, omega (arith, h.1, same.0))) segments written;
    };
    grows = omega (arith, same.0);
    kept = λ n l e. elim (gone n e) [ inl k ↦ v.kept n (omega (arith, l, same.0)) k | inr r ↦ r ];
  }

  pub sender_flushes-SenderStep :
      (congestion : Bool) (size rto conv : ℕ) (closing : Bool) (current : ℕ)
      → let (w, written, ping) = Sending.flush congestion size rto conv closing s.sender current in
        SenderStep sent s w (s.segments ++ written)
  sender_flushes-SenderStep congestion size rto conv closing current =
      let f =
        flush-sends congestion size rto conv closing s.sender current v.sends.valid
          v.sends.is_open in
      settled_step (Sending.flush congestion size rto conv closing s.sender current).0
        (s.segments ++ (Sending.flush congestion size rto conv closing s.sender current).1) f.0
        (flush-Same congestion size rto conv closing s.sender current v.sends.is_open)
        (All-append (IsFrom sent s.sender.next_number) s.segments
          (Sending.flush congestion size rto conv closing s.sender current).1 v.sends.written
          (flush-IsFrom sent congestion size rto conv closing s.sender current v.sends.valid
            v.sends.is_open v.sends.pushed))
        (λ n b e. sym (f.1 n) ∙ e) (λ n e. inl (sym (f.1 n) ∙ e))

  pub una_arrives-SenderStep :
      (una : ℕ)
      → una ≤ s.receiver.next_number
      → SenderStep sent s (Sending.process_receiving_next s.sender una) s.segments
  una_arrives-SenderStep una le =
      settled_step (Sending.process_receiving_next s.sender una) s.segments
        (process_receiving_next-IsValid s.sender una v.sends.valid)
        (process_receiving_next-Same s.sender una) v.sends.written
        (λ n b e. ground (arith, waits-process_receiving_next n s.sender una v.sends.valid, e))
        (λ n e. elim (Bool-cases (leb una n)) [
          | inl k ↦ inl (rw (waits-process_receiving_next n s.sender una v.sends.valid, k) at e)
          | inr k ↦ inr (ground arith)
        ])

  pub ack_arrives-SenderStep :
      (a : AckSegment) (current rto : ℕ)
      → IsTrue s.receiver a
      → SenderStep sent s (Sending.process_segment s.sender current a rto).0 s.segments
  ack_arrives-SenderStep a current rto t =
      let p = process_segment-acknowledges s.sender current a rto v.sends.valid v.sends.is_open (
        All-imp (IsReceived s.receiver) IsU32
          (λ n h. below n (received_below s.sender.next_number s.receiver v.receives.within n h))
          a.number_list t.0) in
      settled_step (Sending.process_segment s.sender current a rto).0 s.segments p.0
        (process_segment-Same s.sender current a rto v.sends.is_open) v.sends.written
        (λ n b e. ground (arith, p.1 n, e))
        (λ n e. elim (Bool-cases (ltb n a.receiving_next)) [
          | inl k ↦ inr (ground (arith, t.1))
          | inr k ↦ elim (Bool-cases (contains a.number_list n)) [
            | inl c ↦ inr (contains_All (IsReceived s.receiver) a.number_list n t.0 c)
            | inr c ↦ inl (ground (arith, p.1 n))
          ]
        ])
    where
      below : (n : ℕ) → n < s.sender.next_number → n < 2 ^ 32
      below n h = omega (arith, h, v.sends.valid.no_wrap)

  pub pushes-SenderStep :
      suc s.sender.next_number < 2 ^ 32
      → s.sender.next_number < s.sender.first_unacknowledged + 0x7FFFFFFF
      → SenderStep sent s (Sending.push s.sender (sent s.sender.next_number)).0 s.segments
  pushes-SenderStep h1 h2 =
      let w = s.sender in
      let b = sent w.next_number in
      let p = push-keeps w b v.sends.valid h1 h2 in
      elim (Bool-cases (Sending.push w b).1) [
        | inl yes_ ↦ record {
          sends = record {
            valid = p.1;
            is_open = push-closed w b ∙ v.sends.is_open;
            pushed = λ n c e. elim (Bool-cases (w.next_number == n)) [
              | inl k ↦ new_payload n c ((==_iff w.next_number n).0 k) (ground (arith, p.2 n))
              | inr k ↦ v.sends.pushed n c (ground (arith, p.2 n))
            ];
            written =
                All-imp (IsFrom sent w.next_number) (IsFrom sent (Sending.push w b).0.next_number)
                  (λ x k. (k.0, ground (arith, k.1, p.3))) s.segments v.sends.written;
          };
          grows = ground (arith, p.3);
          kept = λ n l e. elim (Bool-cases (w.next_number == n)) [
            | inl k ↦ absurd (ground (arith, p.2 n))
            | inr k ↦ v.kept n (ground (arith, p.3)) (ground (arith, p.2 n))
          ];
        }
        | inr no_ ↦
            settled_step (Sending.push w b).0 s.segments p.1 (rw no_ at p.3, push-closed w b)
              v.sends.written (λ n c e. ground (arith, p.2 n)) (λ n e. inl (ground (arith, p.2 n)))
      ]
    where
      new_payload :
          (n : ℕ) (c : List ℕ)
          → s.sender.next_number ≡ n
          → c ≡ sent s.sender.next_number
          → c ≡ sent n
      new_payload n c k e = e ∙ ap sent k
