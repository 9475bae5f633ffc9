-- ===== src/Buf.antt =====
-- xray-go/common/buf/buffer.go: a buffer of bytes with a part that is filled. `none` is a panic of Go
-- (a slice out of its bounds, or an explicit one). A position that may be negative counts from the
-- end. The sizes are int32 and stay below 2 ^ 31, since the slice does.
pub mod Slices
pub mod Promise
pub mod Steps
pub mod Refine
pub mod Multi
use xray_core_python.Prelude.{
  ℕ, zero, suc, ◌+◌, ◌-◌, min, Bool, true, false, ◌&&◌, Option, none, some, List, [], ◌∷◌, ◌++◌,
  ltb, leb, ◌==◌, if◌then◌else◌, length, get_or, set, take, drop,
}

pub data Ownership : Type 0 where
  managed unmanaged bytespools : Ownership

pub record Buffer : Type 0 where
  pub v : List ℕ
  pub start : ℕ
  pub stop : ℕ
  pub ownership : Ownership

-- `size` in the constants: a regular buffer.
abbrev pub regular_size : ℕ
regular_size = 8192

abbrev pub zeros : ℕ → List ℕ
zeros zero = []
zeros (suc n) = 0 ∷ zeros n

-- `New`: what the pool hands out may hold anything in its 8192 bytes.
abbrev pub new_buffer : List ℕ → Buffer
new_buffer v = record { v = v; start = 0; stop = 0; ownership = managed }

abbrev pub from_bytes : List ℕ → Buffer
from_bytes b = record { v = b; start = 0; stop = length b; ownership = unmanaged }

abbrev pub len : Buffer → ℕ
len b = b.stop - b.start

abbrev pub cap : Buffer → ℕ
cap b = length b.v

abbrev pub available : Buffer → ℕ
available b = length b.v - b.stop

abbrev pub is_empty : Buffer → Bool
is_empty b = len b == 0

abbrev pub is_full : Buffer → Bool
is_full b = b.stop == length b.v

-- The slice `b.v[from:to]`.
abbrev pub slice : ℕ → ℕ → Buffer → List ℕ
slice from to b = drop from (take to b.v)

abbrev pub bytes : Buffer → List ℕ
bytes b = slice b.start b.stop b

-- `Release` puts the slice of a managed buffer back.
unfoldable pub release : Buffer → Buffer
release b = elim b.ownership [
  | unmanaged ↦ b
  | managed ↦ record b { v = []; start = 0; stop = 0 }
  | bytespools ↦ record b { v = []; start = 0; stop = 0 }
]

unfoldable pub clear : Buffer → Buffer
clear b = record b { start = 0; stop = 0 }

unfoldable pub byte : ℕ → Buffer → Option ℕ
byte index b =
    if ltb (b.start + index) (length b.v) then some (get_or b.v (b.start + index) 0) else none

unfoldable pub set_byte : ℕ → ℕ → Buffer → Option Buffer
set_byte index value b =
    if ltb (b.start + index) (length b.v)
    then some (record b { v = set b.v (b.start + index) value })
    else none

-- Bytes over those of the slice, from a position on.
abbrev pub overwrite : ℕ → List ℕ → List ℕ → List ℕ
overwrite at bs v = take at v ++ (bs ++ drop (at + length bs) v)

unfoldable pub extend : ℕ → Buffer → Option Buffer
extend n b =
    if ltb (length b.v) (b.stop + n)
    then none
    else some (record b { v = overwrite b.stop (zeros n) b.v; stop = b.stop + n })

-- A position in the content: from its start, or so many bytes before its end.
pub data Position : Type 0 where
  from_start from_end : ℕ → Position

-- A start before that of the slice, or behind the end of the content, panics.
unfoldable pub bytes_from : Position → Buffer → Option (List ℕ)
bytes_from (from_start n) b =
    if ltb b.stop (b.start + n) then none else some (slice (b.start + n) b.stop b)
bytes_from (from_end n) b = if ltb b.stop n then none else some (slice (b.stop - n) b.stop b)

-- An end before the start of the content is that start.
unfoldable pub bytes_to : Position → Buffer → Option (List ℕ)
bytes_to p b =
    let to : ℕ = elim p [ from_start n ↦ n | from_end n ↦ len b - n ] in
    if ltb (length b.v) (b.start + to) then none else some (slice b.start (b.start + to) b)

-- `Advance` with `Check`: the start is moved to the end at most, and to 0 at least. A start behind
-- the end may be a sum that an int32 does not hold; it is negative then, and is set to 0.
unfoldable pub advance : Position → Buffer → Buffer
advance (from_start n) b =
    let sum = b.start + n in
    record b { start = if leb sum b.stop then sum else if ltb sum 2147483648 then b.stop else 0 }
advance (from_end n) b = record b { start = (b.start + len b) - n }

unfoldable pub write : List ℕ → Buffer → Buffer × ℕ × Bool
write bs b =
    let n = min (available b) (length bs) in
    (record b { v = overwrite b.stop (take n bs) b.v; stop = b.stop + n }, n, leb (length bs) n)

unfoldable pub write_byte : ℕ → Buffer → Buffer × Bool
write_byte x b =
    if is_full b
    then (b, false)
    else (record b { v = overwrite b.stop (x ∷ []) b.v; stop = b.stop + 1 }, true)

-- `none` is `io.EOF` here and in the next two.
unfoldable pub read_byte : Buffer → Buffer × Option ℕ
read_byte b =
    if b.start == b.stop
    then (b, none)
    else (record b { start = b.start + 1 }, some (get_or b.v b.start 0))

unfoldable pub read_bytes : ℕ → Buffer → Buffer × Option (List ℕ)
read_bytes n b =
    if ltb (len b) n
    then (b, none)
    else (record b { start = b.start + n }, some (slice b.start (b.start + n) b))

unfoldable pub read : ℕ → Buffer → Buffer × Option (List ℕ)
read room b =
    if is_empty b
    then (b, none)
    else let n = min room (len b) in
      (
        (if n == len b then record b { start = 0; stop = 0 } else record b { start = b.start + n }),
        some (take n (bytes b)),
      )

-- How `io.ReadFull` ends: all bytes, an error, or no room for so many.
pub data Filled : Type 0 where
  filled end_of_input out_of_bound : Filled

-- `ReadFullFrom` a reader that has the bytes `input` left; what it leaves, and the count. An end
-- that an int32 does not hold is negative, and the slice up to it panics.
unfoldable pub read_full_from : ℕ → List ℕ → Buffer → Option (Buffer × List ℕ × ℕ × Filled)
read_full_from size input b =
    if ltb (length b.v) (b.stop + size)
    then (if ltb (b.stop + size) 2147483648 then some (b, input, 0, out_of_bound) else none)
    else let got = take size input in
      some (
        record b { v = overwrite b.stop got b.v; stop = b.stop + length got },
        drop size input,
        length got,
        (if ltb (length input) size then end_of_input else filled),
      )
