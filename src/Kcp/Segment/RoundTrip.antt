-- ===== src/Kcp/Segment/RoundTrip.antt =====
-- `ReadSegment` after `Serialize`.
use gzv2ray_v.Prelude.{
  ℕ, ◌≡◌, ◌≤◌, All, List, length, ◌++◌, some, ◌%◌, ◌+◌, le→ltb_false, ◌^◌, arith, length-append,
  take_of_length-le, append_assoc, ◌∷◌, ◌*◌, refl, if◌then◌else◌, ◌==◌, [],
}
use native.Mathlib.Nat.{mod-eq_of_lt}
use gzv2ray_v.Kcp.Go.{value, IsByte, IsU16, IsU32, put_u16, put_u32, first}
use gzv2ray_v.Kcp.Go.Slices.{
  u16-put_u16, u32-put_u32, slice_from-length, slice_to-length, slice_from-put_u32,
  slice_from-put_u16, slice_from-cons, length-put_u32, length-put_u16,
}
use gzv2ray_v.Kcp.Segment.{
  Segment, DataSegment, AckSegment, CmdOnlySegment, data_segment, ack_segment, cmd_segment,
  command_data, command_ack, fill_buffer, parse_data, parse_ack, parse_cmd, parse_numbers,
  read_segment, put_numbers, serialize, byte_size,
}

-- What `Serialize` assumes of a segment: each field in its width, a data payload of 1 to 2048
-- bytes, at most 255 acknowledged numbers, and a command that is neither of the others'.
pub record DataFits (s : DataSegment) : Type 0 where
  pub conv : IsU16 s.conv
  pub option : IsByte s.option
  pub timestamp : IsU32 s.timestamp
  pub number : IsU32 s.number
  pub sending_next : IsU32 s.sending_next
  pub nonempty : 1 ≤ length s.payload
  pub bounded : length s.payload ≤ 2048

pub record AckFits (s : AckSegment) : Type 0 where
  pub conv : IsU16 s.conv
  pub option : IsByte s.option
  pub receiving_window : IsU32 s.receiving_window
  pub receiving_next : IsU32 s.receiving_next
  pub timestamp : IsU32 s.timestamp
  pub numbers : All IsU32 s.number_list
  pub bounded : length s.number_list ≤ 255

pub record CmdFits (s : CmdOnlySegment) : Type 0 where
  pub conv : IsU16 s.conv
  pub cmd : 2 ≤ s.cmd
  pub option : IsByte s.option
  pub sending_next : IsU32 s.sending_next
  pub receiving_next : IsU32 s.receiving_next
  pub peer_rto : IsU32 s.peer_rto

abbrev pub Fits : Segment → Type 0
Fits (data_segment s) = DataFits s
Fits (ack_segment s) = AckFits s
Fits (cmd_segment s) = CmdFits s

-- What the peer sees of a segment: the sender's bookkeeping is not sent.
unfoldable pub on_wire : Segment → Segment
on_wire (data_segment s) = data_segment (record s { timeout = 0; transmit = 0 })
on_wire (ack_segment s) = ack_segment s
on_wire (cmd_segment s) = cmd_segment s

-- The four bytes that every segment starts with choose the parser.
read_segment-header :
    (conv cmd opt : ℕ) (body : List ℕ)
    → IsU16 conv
    → read_segment (put_u16 conv ++ (cmd ∷ opt ∷ body)) ≡ (
        if cmd == command_data
        then parse_data conv opt body
        else if cmd == command_ack
        then parse_ack conv opt body
        else parse_cmd conv cmd opt body)
unfolding read_segment first
read_segment-header conv cmd opt body h = simp (
  le→ltb_false (length (put_u16 conv ++ (cmd ∷ opt ∷ body))) 4
      (omega (arith, length-append (put_u16 conv) (cmd ∷ opt ∷ body), length-put_u16 conv)),
  u16-put_u16 conv (cmd ∷ opt ∷ body) h,
  slice_from-put_u16,
  slice_from-cons,
  slice_from-length 2 (cmd ∷ opt ∷ []) body refl,
)

module _ (s : DataSegment) (rest : List ℕ) where
  abbrev data_body : List ℕ
  data_body =
      put_u32 s.timestamp
      ++ (put_u32 s.number
          ++ (put_u32 s.sending_next
              ++ (put_u16 (length s.payload % 2 ^ 16) ++ (s.payload ++ rest))))

  length-data_body : length data_body ≡ 14 + length s.payload + length rest
  unfolding put_u32 put_u16
  length-data_body = omega (arith, length-append s.payload rest)

  parse_data-body :
      DataFits s
      → parse_data s.conv s.option data_body ≡ value (some (on_wire (data_segment s), rest))
  unfolding parse_data on_wire fill_buffer
  parse_data-body h =
      simp
        (
          le→ltb_false (length data_body) 15 (omega (arith, length-data_body)),
          u32-put_u32 _ _ h.timestamp,
          slice_from-put_u32,
          u32-put_u32 _ _ h.number,
          u32-put_u32 _ _ h.sending_next,
          slice_from-put_u16,
        )
        (rw (mod-eq_of_lt {n = length s.payload} {m = 2 ^ 16} (omega arith)) (
          simp (
            u16-put_u16 (length s.payload) (s.payload ++ rest) (omega arith),
            le→ltb_false (length (s.payload ++ rest)) (length s.payload)
                (omega (arith, length-append s.payload rest)),
            slice_to-length (length s.payload) s.payload rest refl,
            slice_from-length (length s.payload) s.payload rest refl,
            take_of_length-le 2048 s.payload h.bounded,
          )))

  read_segment-data :
      DataFits s
      → read_segment (serialize (data_segment s) ++ rest)
        ≡ value (some (on_wire (data_segment s), rest))
  unfolding serialize
  read_segment-data h =
      simp append_assoc
        (rw (read_segment-header s.conv command_data s.option data_body h.conv) (parse_data-body h))

parse_numbers-put_numbers :
    (numbers rest : List ℕ)
    → All IsU32 numbers
    → parse_numbers (length numbers) (put_numbers numbers ++ rest) ≡ value (numbers, rest)
unfolding parse_numbers put_numbers
parse_numbers-put_numbers [] rest h = refl
parse_numbers-put_numbers (n ∷ ns) rest h =
    simp (append_assoc, u32-put_u32 n (put_numbers ns ++ rest) h.0, slice_from-put_u32)
      (rw (parse_numbers-put_numbers ns rest h.1))

length-put_numbers : (numbers : List ℕ) → length (put_numbers numbers) ≡ length numbers * 4
unfolding put_numbers
length-put_numbers [] = refl
length-put_numbers (n ∷ ns) =
    omega
      (arith, length-append (put_u32 n) (put_numbers ns), length-put_u32 n, length-put_numbers ns)

module _ (s : AckSegment) (rest : List ℕ) where
  abbrev ack_body : List ℕ
  ack_body =
      put_u32 s.receiving_window
      ++ (put_u32 s.receiving_next
          ++ (put_u32 s.timestamp
              ++ (length s.number_list % 256 ∷ (put_numbers s.number_list ++ rest))))

  length-ack_body : length ack_body ≡ 13 + length s.number_list * 4 + length rest
  unfolding put_u32
  length-ack_body =
      omega
        (arith, length-append (put_numbers s.number_list) rest, length-put_numbers s.number_list)

  parse_ack-body :
      AckFits s → parse_ack s.conv s.option ack_body ≡ value (some (ack_segment s, rest))
  unfolding parse_ack first
  parse_ack-body h =
      simp
        (
          le→ltb_false (length ack_body) 13 (omega (arith, length-ack_body)),
          u32-put_u32 _ _ h.receiving_window,
          slice_from-put_u32,
          u32-put_u32 _ _ h.receiving_next,
          u32-put_u32 _ _ h.timestamp,
          slice_from-cons,
        )
        (rw (mod-eq_of_lt {n = length s.number_list} {m = 256} (omega arith)) (
          simp (
            le→ltb_false (length (put_numbers s.number_list ++ rest)) (length s.number_list * 4) (
                omega (
                  arith,
                  length-append (put_numbers s.number_list) rest,
                  length-put_numbers s.number_list,
                )),
            parse_numbers-put_numbers s.number_list rest h.numbers,
          )))

  read_segment-ack :
      AckFits s
      → read_segment (serialize (ack_segment s) ++ rest)
        ≡ value (some (on_wire (ack_segment s), rest))
  unfolding serialize on_wire
  read_segment-ack h =
      simp append_assoc
        (rw (read_segment-header s.conv command_ack s.option ack_body h.conv) (parse_ack-body h))

module _ (s : CmdOnlySegment) (rest : List ℕ) where
  abbrev cmd_body : List ℕ
  cmd_body = put_u32 s.sending_next ++ (put_u32 s.receiving_next ++ (put_u32 s.peer_rto ++ rest))

  length-cmd_body : length cmd_body ≡ 12 + length rest
  unfolding put_u32
  length-cmd_body = omega arith

  parse_cmd-body :
      CmdFits s → parse_cmd s.conv s.cmd s.option cmd_body ≡ value (some (cmd_segment s, rest))
  unfolding parse_cmd
  parse_cmd-body h = simp (
    le→ltb_false (length cmd_body) 12 (omega (arith, length-cmd_body)),
    u32-put_u32 _ _ h.sending_next,
    slice_from-put_u32,
    u32-put_u32 _ _ h.receiving_next,
    u32-put_u32 _ _ h.peer_rto,
  )

  read_segment-cmd :
      CmdFits s
      → read_segment (serialize (cmd_segment s) ++ rest)
        ≡ value (some (on_wire (cmd_segment s), rest))
  unfolding serialize on_wire
  read_segment-cmd h = simp append_assoc (
      rw (read_segment-header s.conv s.cmd s.option cmd_body h.conv)
        (ground (arith, parse_cmd-body h, h.cmd)))

-- Reading what `Serialize` wrote for a segment that fits, with any bytes behind it, gives the
-- segment without the sender's bookkeeping, and leaves exactly those bytes.
pub read_segment-serialize :
    (s : Segment) (rest : List ℕ)
    → Fits s
    → read_segment (serialize s ++ rest) ≡ value (some (on_wire s, rest))
read_segment-serialize (data_segment s) rest h = read_segment-data s rest h
read_segment-serialize (ack_segment s) rest h = read_segment-ack s rest h
read_segment-serialize (cmd_segment s) rest h = read_segment-cmd s rest h

-- `Serialize` fills exactly the `ByteSize` bytes that the writer reserves for a segment.
pub length-serialize : (s : Segment) → length (serialize s) ≡ byte_size s
unfolding serialize byte_size put_u32 put_u16
length-serialize (data_segment s) = omega arith
length-serialize (ack_segment s) = omega (arith, length-put_numbers s.number_list)
length-serialize (cmd_segment s) = omega arith
