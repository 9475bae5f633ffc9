-- ===== src/Kcp/Segment/RoundTrip.antt =====
-- A packet of segments reads back as what was written into it.
use xray_core_python.Prelude.{
  Option, none, ap₂, ℕ, zero, suc, ◌+◌, ◌*◌, ◌≤◌, ◌<◌, ◌≡◌, refl, ap, ◌∙◌, some, List, [], ◌∷◌,
  ◌++◌, map, append_assoc, append-nil, length, length-append, take-append, drop-append, take-all,
  le→ltb_false, if◌then◌else◌, arith, IsU8, IsU16, IsU32, All, put_u16, put_u32, get_u32, u8, ◌==◌,
  get_u16-put_u16, get_u32-put_u32,
}
use xray_core_python.Kcp.Segment.{
  AckSegment, Segment, data_seg, ack_seg, cmd_seg, buffer_size, put_number, command_data,
  command_ack, payload_bytes, put_u32s, new_ack_segment, parse_data, parse_numbers, parse_ack,
  parse_cmd, read_segment, written, serialize, as_segment, read_loop, read_packet, byte_size,
}
use xray_core_python.Kcp.Segment.Layout.{length-put_u32s, length-written}

-- Every field fits its width on the wire, a payload fits a buffer, and what follows a data
-- segment or its payload has a byte at least, since the parser wants 15 bytes for a header of 14.
abbrev pub IsWire : Segment → List ℕ → Type 0
IsWire (data_seg s) rest =
    IsU16 s.conv
    × IsU8 s.option
    × IsU32 s.timestamp
    × IsU32 s.number
    × IsU32 s.sending_next
    × (length (payload_bytes s) ≤ buffer_size)
    × (1 ≤ length (payload_bytes s) + length rest)
    × (s.payload ≡ some (payload_bytes s))
IsWire (ack_seg s) rest =
    IsU16 s.conv
    × IsU8 s.option
    × IsU32 s.receiving_window
    × IsU32 s.receiving_next
    × IsU32 s.timestamp
    × IsU8 (length s.number_list)
    × All IsU32 s.number_list
IsWire (cmd_seg s) rest =
    IsU16 s.conv
    × IsU8 s.option
    × IsU32 s.sending_next
    × IsU32 s.receiving_next
    × IsU32 s.peer_rto
    × IsU8 s.cmd
    × (2 ≤ s.cmd)

-- The segment as its receiver holds it: the sender's bookkeeping is not on the wire.
abbrev pub received : Segment → Segment
received (data_seg s) =
    data_seg (record s { payload = some (payload_bytes s); timeout = 0; transmit = 0 })
received (ack_seg s) = ack_seg (record s { limit = 128 })
received (cmd_seg s) = cmd_seg s

parse_data-payload :
    (conv opt t1 t2 t3 : ℕ) (p rest : List ℕ)
    → IsU32 t1
    → IsU32 t2
    → IsU32 t3
    → length p ≤ buffer_size
    → 1 ≤ length p + length rest
    → parse_data conv opt
        (put_u32 t1 ++ (put_u32 t2 ++ (put_u32 t3 ++ (put_u16 (length p) ++ (p ++ rest)))))
      ≡ some (
        record {
          conv = conv;
          option = opt;
          timestamp = t1;
          number = t2;
          sending_next = t3;
          payload = some p;
          timeout = 0;
          transmit = 0;
        },
        rest,
      )
unfolding parse_data
parse_data-payload conv opt t1 t2 t3 p rest h1 h2 h3 hp hr =
    let tail = put_u16 (length p) ++ (p ++ rest) in
    rw (
      le→ltb_false (length (put_u32 t1 ++ (put_u32 t2 ++ (put_u32 t3 ++ tail)))) 15
          (omega (arith, length-append p rest)),
      get_u16-put_u16 (length p) (p ++ rest) (omega arith),
      le→ltb_false (length (p ++ rest)) (length p) (omega (arith, length-append p rest)),
      get_u32-put_u32 t1 (put_u32 t2 ++ (put_u32 t3 ++ tail)) h1,
      get_u32-put_u32 t2 (put_u32 t3 ++ tail) h2,
      get_u32-put_u32 t3 tail h3,
      take-append (length p) p rest refl,
      drop-append (length p) p rest refl,
      take-all buffer_size p hp,
    )

parse_numbers-put_u32s :
    (ns : List ℕ) (s : AckSegment) (rest : List ℕ)
    → All IsU32 ns
    → parse_numbers (length ns) s (put_u32s ns ++ rest)
      ≡ (record s { number_list = s.number_list ++ ns }, rest)
unfolding parse_numbers put_number
parse_numbers-put_u32s [] s rest h = rw append-nil
parse_numbers-put_u32s (n ∷ ns) s rest h =
    parse_numbers-put_u32s ns (put_number (get_u32 (put_u32 n ++ (put_u32s ns ++ rest))) s) rest h.1
    ∙ rw (get_u32-put_u32 n (put_u32s ns ++ rest) h.0, append_assoc s.number_list (n ∷ []) ns)

parse_cmd-fields :
    (conv cmd opt t1 t2 t3 : ℕ) (rest : List ℕ)
    → IsU32 t1
    → IsU32 t2
    → IsU32 t3
    → parse_cmd conv cmd opt (put_u32 t1 ++ (put_u32 t2 ++ (put_u32 t3 ++ rest)))
      ≡ some (
        record {
          conv = conv;
          cmd = cmd;
          option = opt;
          sending_next = t1;
          receiving_next = t2;
          peer_rto = t3;
        },
        rest,
      )
unfolding parse_cmd
parse_cmd-fields conv cmd opt t1 t2 t3 rest h1 h2 h3 = ground arith

parse_ack-fields :
    (conv opt t1 t2 t3 : ℕ) (ns rest : List ℕ)
    → IsU32 t1
    → IsU32 t2
    → IsU32 t3
    → IsU8 (length ns)
    → All IsU32 ns
    → parse_ack conv opt
        (put_u32 t1 ++ (put_u32 t2 ++ (put_u32 t3 ++ (length ns ∷ (put_u32s ns ++ rest)))))
      ≡ some (
        record {
          conv = conv;
          option = opt;
          receiving_window = t1;
          receiving_next = t2;
          timestamp = t3;
          number_list = ns;
          limit = 128;
        },
        rest,
      )
unfolding parse_ack new_ack_segment
parse_ack-fields conv opt t1 t2 t3 ns rest h1 h2 h3 hn hs =
    let tail = length ns ∷ (put_u32s ns ++ rest) in
    rw (
      le→ltb_false (length (put_u32 t1 ++ (put_u32 t2 ++ (put_u32 t3 ++ tail)))) 13 (omega arith),
      le→ltb_false (length (put_u32s ns ++ rest)) (length ns * 4)
          (omega (arith, length-append (put_u32s ns) rest, length-put_u32s ns)),
      get_u32-put_u32 t1 (put_u32 t2 ++ (put_u32 t3 ++ tail)) h1,
      get_u32-put_u32 t2 (put_u32 t3 ++ tail) h2,
      get_u32-put_u32 t3 tail h3,
      parse_numbers-put_u32s ns _ rest hs,
    )

read_segment_header :
    (conv cmd opt : ℕ) (b : List ℕ)
    → IsU16 conv
    → read_segment (put_u16 conv ++ (cmd ∷ opt ∷ b)) ≡ (
        if cmd == command_data
        then as_segment data_seg (parse_data conv opt b)
        else if cmd == command_ack
        then as_segment ack_seg (parse_ack conv opt b)
        else as_segment cmd_seg (parse_cmd conv cmd opt b))
unfolding read_segment
read_segment_header conv cmd opt b h = rw (
  le→ltb_false (length (put_u16 conv ++ (cmd ∷ opt ∷ b))) 4 (omega arith),
  get_u16-put_u16 conv (cmd ∷ opt ∷ b) h,
)

read_segment-cmd :
    (conv cmd opt : ℕ) (b : List ℕ)
    → IsU16 conv
    → 2 ≤ cmd
    → read_segment (put_u16 conv ++ (cmd ∷ opt ∷ b)) ≡ as_segment cmd_seg (parse_cmd conv cmd opt b)
read_segment-cmd conv cmd opt b h k = ground (arith, read_segment_header conv cmd opt b h)

-- A segment of any kind, written and followed by other bytes, is read back as its receiver holds
-- it, and the bytes that follow are left, where the segment and those bytes fit the wire.
pub read_segment-written :
    (s : Segment) (rest : List ℕ)
    → IsWire s rest
    → read_segment (written s ++ rest) ≡ some (received s, rest)
unfolding written
read_segment-written (data_seg s) rest h =
    let e : u8 s.option ≡ s.option = omega arith in
    rw e (
      read_segment_header s.conv 1 s.option _ h.0
      ∙ ap (as_segment data_seg) (
          parse_data-payload s.conv s.option s.timestamp s.number s.sending_next (payload_bytes s)
            rest h.2 h.3 h.4 h.5 h.6))
read_segment-written (ack_seg s) rest h =
    let e : u8 s.option ≡ s.option = omega arith in
    let k : u8 (length s.number_list) ≡ length s.number_list = omega arith in
    rw (e, k)
      (read_segment_header s.conv 0 s.option _ h.0
        ∙ ap (as_segment ack_seg) (
            parse_ack-fields s.conv s.option s.receiving_window s.receiving_next s.timestamp
              s.number_list rest h.2 h.3 h.4 h.5 h.6))
read_segment-written (cmd_seg s) rest h =
    let e : u8 s.option ≡ s.option = omega arith in
    let k : u8 s.cmd ≡ s.cmd = omega arith in
    rw (e, k)
      (read_segment-cmd s.conv s.cmd s.option _ h.0 h.6
        ∙ ap (as_segment cmd_seg) (
            parse_cmd-fields s.conv s.cmd s.option s.sending_next s.receiving_next s.peer_rto rest
              h.2 h.3 h.4))

-- A packet: the segments one after the other.
abbrev pub written_all : List Segment → List ℕ
written_all [] = []
written_all (s ∷ segs) = written s ++ written_all segs

abbrev pub AreWire : List Segment → Type 0
AreWire [] = Unit
AreWire (s ∷ segs) = IsWire s (written_all segs) × AreWire segs

byte_size_pos : (s : Segment) → 0 < byte_size s
unfolding byte_size
byte_size_pos (data_seg s) = omega arith
byte_size_pos (ack_seg s) = omega arith
byte_size_pos (cmd_seg s) = omega arith

read_loop_step :
    (fuel : ℕ) (b : List ℕ) (seg : Segment) (rest : List ℕ)
    → read_segment b ≡ some (seg, rest)
    → read_loop (suc fuel) b ≡ seg ∷ read_loop fuel rest
unfolding read_loop
read_loop_step fuel [] seg rest e = absurd (unfold read_segment in cc)
read_loop_step fuel (x ∷ b) seg rest e = rw (e, read_loop)

read_loop-written_all :
    (segs : List Segment) (fuel : ℕ)
    → AreWire segs
    → length (written_all segs) ≤ fuel
    → read_loop fuel (written_all segs) ≡ map received segs
read_loop-written_all [] zero w h = unfold read_loop in refl
read_loop-written_all [] (suc fuel) w h = unfold read_loop in refl
read_loop-written_all (s ∷ segs) zero w h =
    absurd (
      omega
        (arith, length-append (written s) (written_all segs), length-written s, byte_size_pos s))
read_loop-written_all (s ∷ segs) (suc fuel) w h =
    read_loop_step fuel _ (received s) (written_all segs)
      (read_segment-written s (written_all segs) w.0)
    ∙ ap (λ t. received s ∷ t)
        (read_loop-written_all segs fuel w.1 (
          omega (
            arith,
            length-append (written s) (written_all segs),
            length-written s,
            byte_size_pos s,
          )))

-- One part of a packet and the rest; `none` is a panic.
abbrev joined : Option (List ℕ) → Option (List ℕ) → Option (List ℕ)
joined none rest = none
joined (some bytes) none = none
joined (some bytes) (some rest) = some (bytes ++ rest)

abbrev pub serialize_all : List Segment → Option (List ℕ)
serialize_all [] = some []
serialize_all (s ∷ segs) = joined (serialize s) (serialize_all segs)

serialize-written : (s : Segment) (rest : List ℕ) → IsWire s rest → serialize s ≡ some (written s)
unfolding serialize written
serialize-written (data_seg s) rest h = rw (h.7, serialize) refl
serialize-written (ack_seg s) rest h = refl
serialize-written (cmd_seg s) rest h = refl

serialize_all-written_all :
    (segs : List Segment) → AreWire segs → serialize_all segs ≡ some (written_all segs)
serialize_all-written_all [] w = refl
serialize_all-written_all (s ∷ segs) w =
    ap₂ joined (serialize-written s (written_all segs) w.0) (serialize_all-written_all segs w.1)

-- A packet of segments of any kinds is written without a panic and reads back as the segments
-- written, in order, as the receiver holds them, where each is within what the wire carries: fields
-- of their widths, fewer than 256 acknowledged numbers, a command other than those of data and
-- acknowledgements, and a payload that is not nil, fits a buffer, and is not empty in a last segment.
pub read_packet-serialize_all :
    (segs : List Segment)
    → AreWire segs
    → (bs : List ℕ) × (serialize_all segs ≡ some bs) × (read_packet bs ≡ map received segs)
unfolding read_packet
read_packet-serialize_all segs w = (
  written_all segs,
  serialize_all-written_all segs w,
  read_loop-written_all segs _ w (omega arith),
)
