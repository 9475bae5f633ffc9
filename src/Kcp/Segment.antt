-- ===== src/Kcp/Segment.antt =====
-- xray-go/transport/internet/kcp/segment.go, io.go and output.go: the three kinds of segment and
-- their wire form. A payload buffer is the list of its bytes, `none` for a nil pointer; a buffer
-- from the pool holds at most `buffer_size` bytes. A byte slice is a list of numbers.
pub mod Layout
pub mod RoundTrip
use xray_core_python.Prelude.{
  ℕ, zero, suc, ◌+◌, ◌*◌, ◌%◌, Bool, true, false, ◌≡◌, Option, none, some, List, [], ◌∷◌, ◌++◌, map,
  ltb, leb, ◌==◌, if◌then◌else◌, length, get_or, take, drop, u8, u16, u32, sub32, put_u16, put_u32,
  get_u16, get_u32,
}

abbrev pub command_ack : ℕ
command_ack = 0

abbrev pub command_data : ℕ
command_data = 1

abbrev pub command_terminate : ℕ
command_terminate = 2

abbrev pub command_ping : ℕ
command_ping = 3

abbrev pub segment_option_close : ℕ
segment_option_close = 1

abbrev pub data_segment_overhead : ℕ
data_segment_overhead = 18

abbrev pub ack_number_limit : ℕ
ack_number_limit = 128

-- buf.Size
abbrev pub buffer_size : ℕ
buffer_size = 8192

pub record DataSegment : Type 0 where
  pub conv : ℕ
  pub option : ℕ
  pub timestamp : ℕ
  pub number : ℕ
  pub sending_next : ℕ
  pub payload : Option (List ℕ)
  pub timeout : ℕ
  pub transmit : ℕ

pub record AckSegment : Type 0 where
  pub conv : ℕ
  pub option : ℕ
  pub receiving_window : ℕ
  pub receiving_next : ℕ
  pub timestamp : ℕ
  pub number_list : List ℕ
  pub limit : ℕ

pub record CmdOnlySegment : Type 0 where
  pub conv : ℕ
  pub cmd : ℕ
  pub option : ℕ
  pub sending_next : ℕ
  pub receiving_next : ℕ
  pub peer_rto : ℕ

-- The implementations of the interface `Segment`.
pub data Segment : Type 0 where
  data_seg : DataSegment → Segment
  ack_seg : AckSegment → Segment
  cmd_seg : CmdOnlySegment → Segment

abbrev pub new_data_segment : DataSegment
new_data_segment = record {
  conv = 0;
  option = 0;
  timestamp = 0;
  number = 0;
  sending_next = 0;
  payload = none;
  timeout = 0;
  transmit = 0;
}

-- The limit is an `int`; a negative one is 0 here, and both become 1.
unfoldable pub new_ack_segment : ℕ → AckSegment
new_ack_segment limit =
    let at_least : ℕ = if leb limit 0 then 1 else limit in
    record {
      conv = 0;
      option = 0;
      receiving_window = 0;
      receiving_next = 0;
      timestamp = 0;
      number_list = [];
      limit = if ltb ack_number_limit at_least then ack_number_limit else at_least;
    }

-- What `Detach` hands over, and what `Len` counts: a nil buffer has no bytes. `Bytes` of one panics.
abbrev pub payload_bytes : DataSegment → List ℕ
payload_bytes s = elim s.payload [ none ↦ [] | some p ↦ p ]

-- `Data().Clear()` and then `Data().Write`: as many bytes as the buffer holds.
abbrev pub write_payload : List ℕ → DataSegment → DataSegment
write_payload bytes s = record s { payload = some (take buffer_size bytes) }

unfoldable pub put_number : ℕ → AckSegment → AckSegment
put_number number s = record s { number_list = s.number_list ++ (number ∷ []) }

unfoldable pub put_timestamp : ℕ → AckSegment → AckSegment
put_timestamp timestamp s =
    if ltb (sub32 timestamp s.timestamp) 0x7FFFFFFF then record s { timestamp = timestamp } else s

abbrev pub is_full : AckSegment → Bool
is_full s = length s.number_list == s.limit

abbrev pub is_empty : AckSegment → Bool
is_empty s = length s.number_list == 0

parse_data : ℕ → ℕ → List ℕ → Option (DataSegment × List ℕ)
parse_data conv opt buf =
    if ltb (length buf) 15
    then none
    else let b1 = drop 4 buf in
      let b2 = drop 4 b1 in
      let b3 = drop 4 b2 in
      let data_len = get_u16 b3 in
      let b4 = drop 2 b3 in
      if ltb (length b4) data_len
      then none
      else some (
        write_payload (take data_len b4) (record new_data_segment {
          conv = conv;
          option = opt;
          timestamp = get_u32 buf;
          number = get_u32 b1;
          sending_next = get_u32 b2;
        }),
        drop data_len b4,
      )

-- The loop of `AckSegment.parse` over the rounds left.
parse_numbers : ℕ → AckSegment → List ℕ → AckSegment × List ℕ
parse_numbers zero s buf = (s, buf)
parse_numbers (suc n) s buf = parse_numbers n (put_number (get_u32 buf) s) (drop 4 buf)

parse_ack : ℕ → ℕ → List ℕ → Option (AckSegment × List ℕ)
parse_ack conv opt buf =
    if ltb (length buf) 13
    then none
    else let b1 = drop 4 buf in
      let b2 = drop 4 b1 in
      let b3 = drop 4 b2 in
      let count = get_or b3 0 0 in
      let b4 = drop 1 b3 in
      if ltb (length b4) (count * 4)
      then none
      else some (
          parse_numbers count
            (record (new_ack_segment 128) {
              conv = conv;
              option = opt;
              receiving_window = get_u32 buf;
              receiving_next = get_u32 b1;
              timestamp = get_u32 b2;
            })
            b4)

parse_cmd : ℕ → ℕ → ℕ → List ℕ → Option (CmdOnlySegment × List ℕ)
parse_cmd conv cmd opt buf =
    if ltb (length buf) 12
    then none
    else let b1 = drop 4 buf in
      let b2 = drop 4 b1 in
      some (
        record {
          conv = conv;
          cmd = cmd;
          option = opt;
          sending_next = get_u32 buf;
          receiving_next = get_u32 b1;
          peer_rto = get_u32 b2;
        },
        drop 4 b2,
      )

-- A parsed segment of any kind, as the interface value.
abbrev as_segment {ℓ} :
    {A : Type ℓ} → (A → Segment) → Option (A × List ℕ) → Option (Segment × List ℕ)
as_segment f none = none
as_segment f (some (s, rest)) = some (f s, rest)

-- `none` is the pair of nils.
unfoldable pub read_segment : List ℕ → Option (Segment × List ℕ)
unfolding parse_data parse_ack parse_cmd parse_numbers put_number
read_segment buf =
    if ltb (length buf) 4
    then none
    else let conv = get_u16 buf in
      let b1 = drop 2 buf in
      let cmd = get_or b1 0 0 in
      let opt = get_or b1 1 0 in
      let b2 = drop 2 b1 in
      if cmd == command_data
      then as_segment data_seg (parse_data conv opt b2)
      else if cmd == command_ack
      then as_segment ack_seg (parse_ack conv opt b2)
      else as_segment cmd_seg (parse_cmd conv cmd opt b2)

abbrev pub put_u32s : List ℕ → List ℕ
put_u32s [] = []
put_u32s (n ∷ ns) = put_u32 n ++ put_u32s ns

-- The bytes that `Serialize` stores at growing offsets, one field after the other.
serialize_data : List ℕ → DataSegment → List ℕ
serialize_data payload s =
    put_u16 s.conv
    ++ (u8 command_data ∷ u8 s.option ∷ put_u32 s.timestamp)
    ++ put_u32 s.number
    ++ put_u32 s.sending_next
    ++ put_u16 (length payload)
    ++ payload

serialize_ack : AckSegment → List ℕ
serialize_ack s =
    put_u16 s.conv
    ++ (u8 command_ack ∷ u8 s.option ∷ put_u32 s.receiving_window)
    ++ put_u32 s.receiving_next
    ++ put_u32 s.timestamp
    ++ (u8 (length s.number_list) ∷ put_u32s s.number_list)

serialize_cmd : CmdOnlySegment → List ℕ
serialize_cmd s =
    put_u16 s.conv
    ++ (u8 s.cmd ∷ u8 s.option ∷ put_u32 s.sending_next)
    ++ put_u32 s.receiving_next
    ++ put_u32 s.peer_rto

-- The bytes of a segment, where a data segment has a payload.
unfoldable pub written : Segment → List ℕ
unfolding serialize_data serialize_ack serialize_cmd
written (data_seg s) = serialize_data (payload_bytes s) s
written (ack_seg s) = serialize_ack s
written (cmd_seg s) = serialize_cmd s

-- `Serialize`; `none` is the panic of a data segment with a nil payload.
unfoldable pub serialize : Segment → Option (List ℕ)
unfolding serialize_data serialize_ack serialize_cmd
serialize (data_seg s) = elim s.payload [
  | none ↦ none
  | some payload ↦ some (serialize_data payload s)
]
serialize (ack_seg s) = some (serialize_ack s)
serialize (cmd_seg s) = some (serialize_cmd s)

pub byte_size : Segment → ℕ
byte_size (data_seg s) = 2 + 1 + 1 + 4 + 4 + 4 + 2 + length (payload_bytes s)
byte_size (ack_seg s) = 2 + 1 + 1 + 4 + 4 + 4 + 1 + length s.number_list * 4
byte_size (cmd_seg s) = 2 + 1 + 1 + 4 + 4 + 4

pub conversation : Segment → ℕ
conversation (data_seg s) = s.conv
conversation (ack_seg s) = s.conv
conversation (cmd_seg s) = s.conv

pub command : Segment → ℕ
command (data_seg s) = command_data
command (ack_seg s) = command_ack
command (cmd_seg s) = s.cmd

-- The loop of KCPPacketReader.Read, on fuel: every segment takes bytes, so that the length of
-- the packet is enough.
read_loop : ℕ → List ℕ → List Segment
read_loop zero b = []
read_loop (suc fuel) [] = []
read_loop (suc fuel) (x ∷ b) = elim (read_segment (x ∷ b)) [
  | none ↦ []
  | some (seg, rest) ↦ seg ∷ read_loop fuel rest
]

unfoldable pub read_packet : List ℕ → List Segment
unfolding read_loop
read_packet b = read_loop (length b) b
