-- ===== src/Kcp/Segment.antt =====
-- transport/internet/kcp/segment.go: the three kinds of segment, and their wire format.
pub mod RoundTrip
pub mod Safety
use gzv2ray_v.Prelude.{
  ℕ, zero, suc, ◌+◌, ◌*◌, ◌%◌, List, [], ◌∷◌, ◌++◌, Option, none, some, length, take, ltb, ◌==◌,
  if◌then◌else◌, ◌^◌,
}
use gzv2ray_v.Kcp.Go.{Go, value, ◌>>=◌, put_u16, put_u32, u16, u32, first, slice_from, slice_to}

abbrev pub command_ack : ℕ
command_ack = 0

abbrev pub command_data : ℕ
command_data = 1

abbrev pub command_terminate : ℕ
command_terminate = 2

abbrev pub command_ping : ℕ
command_ping = 3

abbrev pub option_close : ℕ
option_close = 1

-- buf.Size: what one Buffer holds.
abbrev pub buffer_size : ℕ
buffer_size = 2048

abbrev pub ack_number_limit : ℕ
ack_number_limit = 128

-- `timeout` and `transmit` are the sender's bookkeeping and are not on the wire.
pub record DataSegment : Type 0 where
  pub conv : ℕ
  pub option : ℕ
  pub timestamp : ℕ
  pub number : ℕ
  pub sending_next : ℕ
  pub payload : List ℕ
  pub timeout : ℕ
  pub transmit : ℕ

pub record AckSegment : Type 0 where
  pub conv : ℕ
  pub option : ℕ
  pub receiving_window : ℕ
  pub receiving_next : ℕ
  pub timestamp : ℕ
  pub number_list : List ℕ

pub record CmdOnlySegment : Type 0 where
  pub conv : ℕ
  pub cmd : ℕ
  pub option : ℕ
  pub sending_next : ℕ
  pub receiving_next : ℕ
  pub peer_rto : ℕ

pub data Segment : Type 0 where
  data_segment : DataSegment → Segment
  ack_segment : AckSegment → Segment
  cmd_segment : CmdOnlySegment → Segment

-- `Data().Clear()` and `Data().Write(b)`: the buffer takes what fits.
unfoldable pub fill_buffer : List ℕ → List ℕ
fill_buffer b = take buffer_size b

unfoldable pub parse_data : ℕ → ℕ → List ℕ → Go (Option (Segment × List ℕ))
unfolding fill_buffer
parse_data conv opt b = if ltb (length b) 15 then value none else do
  timestamp ← u32 b
  b1 ← slice_from 4 b
  number ← u32 b1
  b2 ← slice_from 4 b1
  sending_next ← u32 b2
  b3 ← slice_from 4 b2
  data_len ← u16 b3
  b4 ← slice_from 2 b3
  if ltb (length b4) data_len then value none else do
    payload ← slice_to data_len b4
    rest ← slice_from data_len b4
    value (
        some (
          data_segment (record {
            conv = conv;
            option = opt;
            timestamp = timestamp;
            number = number;
            sending_next = sending_next;
            payload = fill_buffer payload;
            timeout = 0;
            transmit = 0;
          }),
          rest,
        ))

-- `for i := 0; i < count; i++ { s.PutNumber(Uint32(buf)); buf = buf[4:] }`
unfoldable pub parse_numbers : ℕ → List ℕ → Go (List ℕ × List ℕ)
parse_numbers zero b = value ([], b)
parse_numbers (suc count) b = do
  number ← u32 b
  b' ← slice_from 4 b
  (numbers, rest) ← parse_numbers count b'
  value (number ∷ numbers, rest)

unfoldable pub parse_ack : ℕ → ℕ → List ℕ → Go (Option (Segment × List ℕ))
parse_ack conv opt b = if ltb (length b) 13 then value none else do
  receiving_window ← u32 b
  b1 ← slice_from 4 b
  receiving_next ← u32 b1
  b2 ← slice_from 4 b1
  timestamp ← u32 b2
  b3 ← slice_from 4 b2
  count ← first b3
  b4 ← slice_from 1 b3
  if ltb (length b4) (count * 4) then value none else do
    (numbers, rest) ← parse_numbers count b4
    value (
        some (
          ack_segment (record {
            conv = conv;
            option = opt;
            receiving_window = receiving_window;
            receiving_next = receiving_next;
            timestamp = timestamp;
            number_list = numbers;
          }),
          rest,
        ))

unfoldable pub parse_cmd : ℕ → ℕ → ℕ → List ℕ → Go (Option (Segment × List ℕ))
parse_cmd conv cmd opt b = if ltb (length b) 12 then value none else do
  sending_next ← u32 b
  b1 ← slice_from 4 b
  receiving_next ← u32 b1
  b2 ← slice_from 4 b1
  peer_rto ← u32 b2
  b3 ← slice_from 4 b2
  value (
      some (
        cmd_segment (record {
          conv = conv;
          cmd = cmd;
          option = opt;
          sending_next = sending_next;
          receiving_next = receiving_next;
          peer_rto = peer_rto;
        }),
        b3,
      ))

-- `ReadSegment`: `none` is the pair of nils.
unfoldable pub read_segment : List ℕ → Go (Option (Segment × List ℕ))
read_segment b = if ltb (length b) 4 then value none else do
  conv ← u16 b
  b1 ← slice_from 2 b
  cmd ← first b1
  b2 ← slice_from 1 b1
  opt ← first b2
  b3 ← slice_from 2 b1
  if cmd == command_data
      then parse_data conv opt b3
      else if cmd == command_ack
      then parse_ack conv opt b3
      else parse_cmd conv cmd opt b3

unfoldable pub put_numbers : List ℕ → List ℕ
put_numbers [] = []
put_numbers (number ∷ numbers) = put_u32 number ++ put_numbers numbers

-- `Serialize`: every write follows the one before it, so the slice is the concatenation.
unfoldable pub serialize : Segment → List ℕ
unfolding put_numbers
serialize (data_segment s) =
    put_u16 s.conv
    ++ (command_data ∷ s.option ∷ put_u32 s.timestamp
        ++ (put_u32 s.number
            ++ (put_u32 s.sending_next ++ (put_u16 (length s.payload % 2 ^ 16) ++ s.payload))))
serialize (ack_segment s) =
    put_u16 s.conv
    ++ (command_ack ∷ s.option ∷ put_u32 s.receiving_window
        ++ (put_u32 s.receiving_next
            ++ (put_u32 s.timestamp ++ (length s.number_list % 256 ∷ put_numbers s.number_list))))
serialize (cmd_segment s) =
    put_u16 s.conv
    ++ (s.cmd ∷ s.option ∷ put_u32 s.sending_next
        ++ (put_u32 s.receiving_next ++ put_u32 s.peer_rto))

unfoldable pub byte_size : Segment → ℕ
byte_size (data_segment s) = 2 + 1 + 1 + 4 + 4 + 4 + 2 + length s.payload
byte_size (ack_segment s) = 2 + 1 + 1 + 4 + 4 + 4 + 1 + length s.number_list * 4
byte_size (cmd_segment _) = 2 + 1 + 1 + 4 + 4 + 4
