-- ===== src/Kcp/Segment/Safety.antt =====
-- `ReadSegment` on any datagram: no index out of range, and progress.
use gzv2ray_v.Prelude.{
  ℕ, ◌≡◌, Bool-cases, tests, Option, List, none, ◌≤◌, length, ◌*◌, some, arith, ltb, [],
  if◌then◌else◌, ◌-◌, ◌==◌, zero, suc, inl, inr, refl, ◌∷◌,
}
use gzv2ray_v.Kcp.Go.{Go, value}
use gzv2ray_v.Kcp.Go.Slices.{slice_from-value, slice_to-value, u16-value, first-value, field-value}
use gzv2ray_v.Kcp.Segment.{
  Segment, command_data, command_ack, parse_data, parse_ack, parse_cmd, parse_numbers, read_segment,
}

-- A parse that does not panic: it rejects the bytes, or leaves at most `n` of them.
pub data Safe (n : ℕ) : Go (Option (Segment × List ℕ)) → Type 0 where
  rejected : Safe n (value none)
  parsed : {s : Segment} {rest : List ℕ} → length rest ≤ n → Safe n (value (some (s, rest)))

Safe-mono : {m n : ℕ} {r : Go (Option (Segment × List ℕ))} → m ≤ n → Safe m r → Safe n r
Safe-mono h rejected = rejected
Safe-mono h (parsed k) = parsed (omega arith)

parse_data-Safe : (conv opt : ℕ) (b : List ℕ) → Safe (length b) (parse_data conv opt b)
unfolding parse_data
parse_data-Safe conv opt b = elim (Bool-cases (ltb (length b) 15)) [
  | inl short ↦ rw short rejected
  | inr long ↦
      let (v1, b1, e1, s1, l1) = field-value b (omega (tests, long)) in
      let (v2, b2, e2, s2, l2) = field-value b1 (omega (tests, long)) in
      let (v3, b3, e3, s3, l3) = field-value b2 (omega (tests, long)) in
      let (data_len, e4) = u16-value b3 (omega (tests, long)) in
      let (b4, s4, l4) = slice_from-value 2 b3 (omega (tests, long)) in
      elim (Bool-cases (ltb (length b4) data_len)) [
        | inl lacks ↦ simp (long, e1, s1, e2, s2, e3, s3, e4, s4, lacks) rejected
        | inr holds ↦
            let (payload, e5, l5) = slice_to-value data_len b4 (omega (tests, holds)) in
            let (rest, s5, l6) = slice_from-value data_len b4 (omega (tests, holds)) in
            simp (long, e1, s1, e2, s2, e3, s3, e4, s4, holds, e5, s5) (parsed (omega arith))
      ]
]

parse_numbers-value :
    (count : ℕ) (b : List ℕ)
    → count * 4 ≤ length b
    → (numbers rest : List ℕ) × (parse_numbers count b ≡ value (numbers, rest))
      × (length rest ≤ length b)
unfolding parse_numbers
parse_numbers-value zero b h = ([], b, refl, omega arith)
parse_numbers-value (suc count) b h =
    let (v, b1, e1, s1, l1) = field-value b (omega arith) in
    let (numbers, rest, e2, l2) = parse_numbers-value count b1 (omega arith) in
    (v ∷ numbers, rest, simp (e1, s1, e2), omega arith)

parse_ack-Safe : (conv opt : ℕ) (b : List ℕ) → Safe (length b) (parse_ack conv opt b)
unfolding parse_ack
parse_ack-Safe conv opt b = elim (Bool-cases (ltb (length b) 13)) [
  | inl short ↦ rw short rejected
  | inr long ↦
      let (v1, b1, e1, s1, l1) = field-value b (omega (tests, long)) in
      let (v2, b2, e2, s2, l2) = field-value b1 (omega (tests, long)) in
      let (v3, b3, e3, s3, l3) = field-value b2 (omega (tests, long)) in
      let (count, e4) = first-value b3 (omega (tests, long)) in
      let (b4, s4, l4) = slice_from-value 1 b3 (omega (tests, long)) in
      elim (Bool-cases (ltb (length b4) (count * 4))) [
        | inl lacks ↦ simp (long, e1, s1, e2, s2, e3, s3, e4, s4, lacks) rejected
        | inr holds ↦
            let (numbers, rest, e5, l5) = parse_numbers-value count b4 (omega (tests, holds)) in
            simp (long, e1, s1, e2, s2, e3, s3, e4, s4, holds, e5) (parsed (omega arith))
      ]
]

parse_cmd-Safe : (conv cmd opt : ℕ) (b : List ℕ) → Safe (length b) (parse_cmd conv cmd opt b)
unfolding parse_cmd
parse_cmd-Safe conv cmd opt b = elim (Bool-cases (ltb (length b) 12)) [
  | inl short ↦ rw short rejected
  | inr long ↦
      let (v1, b1, e1, s1, l1) = field-value b (omega (tests, long)) in
      let (v2, b2, e2, s2, l2) = field-value b1 (omega (tests, long)) in
      let (v3, b3, e3, s3, l3) = field-value b2 (omega (tests, long)) in
      simp (long, e1, s1, e2, s2, e3, s3) (parsed (omega arith))
]

module _ (conv cmd opt : ℕ) (b : List ℕ) where
  dispatch-Safe : Safe (length b) (
      if cmd == command_data
      then parse_data conv opt b
      else if cmd == command_ack
      then parse_ack conv opt b
      else parse_cmd conv cmd opt b)
  dispatch-Safe = elim (Bool-cases (cmd == command_data)) [
    | inl is_data ↦ rw is_data (parse_data-Safe conv opt b)
    | inr not_data ↦ rw not_data (elim (Bool-cases (cmd == command_ack)) [
      | inl is_ack ↦ rw is_ack (parse_ack-Safe conv opt b)
      | inr not_ack ↦ rw not_ack (parse_cmd-Safe conv cmd opt b)
    ])
  ]

-- On every byte sequence `ReadSegment` returns: it never indexes or slices out of range. When it
-- yields a segment, at least the four header bytes are gone from what it leaves.
pub read_segment-Safe : (b : List ℕ) → Safe (length b - 4) (read_segment b)
unfolding read_segment
read_segment-Safe b = elim (Bool-cases (ltb (length b) 4)) [
  | inl short ↦ rw short rejected
  | inr long ↦
      let (conv, e1) = u16-value b (omega (tests, long)) in
      let (b1, s1, l1) = slice_from-value 2 b (omega (tests, long)) in
      let (cmd, e2) = first-value b1 (omega (tests, long)) in
      let (b2, s2, l2) = slice_from-value 1 b1 (omega (tests, long)) in
      let (opt, e3) = first-value b2 (omega (tests, long)) in
      let (b3, s3, l3) = slice_from-value 2 b1 (omega (tests, long)) in
      simp (long, e1, s1, e2, s2, e3, s3) (Safe-mono (omega arith) (dispatch-Safe conv cmd opt b3))
]
