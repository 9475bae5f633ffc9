-- ===== src/Kcp/Segment/Layout.antt =====
-- How long a serialized segment is.
use xray_core_python.Prelude.{ℕ, ◌*◌, ◌≡◌, refl, List, [], ◌∷◌, length, arith}
use xray_core_python.Kcp.Segment.{Segment, data_seg, ack_seg, cmd_seg, written, byte_size, put_u32s}

pub length-put_u32s : (ns : List ℕ) → length (put_u32s ns) ≡ length ns * 4
length-put_u32s [] = refl
length-put_u32s (n ∷ ns) = omega (arith, length-put_u32s ns)

-- A segment of any kind takes exactly the number of bytes that `ByteSize` reserves for it.
pub length-written : (s : Segment) → length (written s) ≡ byte_size s
unfolding written byte_size
length-written (data_seg s) = omega arith
length-written (ack_seg s) = omega (arith, length-put_u32s s.number_list)
length-written (cmd_seg s) = omega arith
