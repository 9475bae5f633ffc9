-- ===== src/Buf/Promise.antt =====
-- What a buffer promises: a queue of bytes with a bounded room behind it.
use xray_core_python.Prelude.{
  ℕ, ◌+◌, ◌-◌, ◌≡◌, min, Bool, true, false, Option, none, some, List, [], ◌∷◌, ◌++◌, ltb, leb, ◌==◌,
  if◌then◌else◌, length, take, drop,
}
use xray_core_python.Buf.{
  Buffer, from_start, bytes, zeros, extend, clear, advance, write, write_byte, read_byte,
  read_bytes, read, Filled, filled, end_of_input, out_of_bound, read_full_from,
}
use xray_core_python.Buf.Slices.{IsValid}

-- The promise. The bytes before the content are lost room, until the buffer is read to its end or
-- cleared.
pub record Queue : Type 0 where
  pub capacity : ℕ
  pub lost : ℕ
  pub content : List ℕ

abbrev pub room : Queue → ℕ
room q = q.capacity - (q.lost + length q.content)

pub data Operation : Type 0 where
  on_write : List ℕ → Operation
  on_write_byte : ℕ → Operation
  on_read_byte : Operation
  on_read_bytes on_read on_extend on_advance : ℕ → Operation
  on_clear : Operation
  on_read_full_from : ℕ → List ℕ → Operation

-- What a caller sees of an operation: bytes, a count, and whether there was no error.
pub record Answer : Type 0 where
  pub bytes_read : List ℕ
  pub count : ℕ
  pub ok : Bool

abbrev pub answer : List ℕ → ℕ → Bool → Answer
answer bs n ok = record { bytes_read = bs; count = n; ok = ok }

abbrev pub refused : Answer
refused = answer [] 0 false

abbrev pub got_bytes : List ℕ → Answer
got_bytes bs = answer bs (length bs) true

abbrev pub append : List ℕ → Queue → Queue
append bs q = record q { content = q.content ++ bs }

abbrev pub drop_front : ℕ → Queue → Queue
drop_front n q = record q { lost = q.lost + n; content = drop n q.content }

-- The operations on the promise; `none` is a panic.
unfoldable pub promise : Operation → Queue → Option (Queue × Answer)
promise (on_write bs) q =
    let n = min (room q) (length bs) in some (append (take n bs) q, answer [] n (leb (length bs) n))
promise (on_write_byte x) q =
    if room q == 0 then some (q, refused) else some (append (x ∷ []) q, answer [] 1 true)
promise on_read_byte q = elim q.content [
  | [] ↦ some (q, refused)
  | x ∷ rest ↦ some (record q { lost = q.lost + 1; content = rest }, answer (x ∷ []) 1 true)
]
promise (on_read_bytes n) q =
    if ltb (length q.content) n
    then some (q, refused)
    else some (drop_front n q, got_bytes (take n q.content))
promise (on_read n) q =
    if length q.content == 0
    then some (q, refused)
    else (if leb (length q.content) n
        then some (record q { lost = 0; content = [] }, got_bytes q.content)
        else some (drop_front n q, got_bytes (take n q.content)))
promise (on_extend n) q =
    if ltb (room q) n then none else some (append (zeros n) q, answer [] n true)
promise (on_advance n) q = some (drop_front (min n (length q.content)) q, answer [] 0 true)
promise on_clear q = some (record q { lost = 0; content = [] }, answer [] 0 true)
promise (on_read_full_from n input) q =
    if ltb (room q) n
    then (if ltb ((q.lost + length q.content) + n) 2147483648 then some (q, refused) else none)
    else some (append (take n input) q, answer [] (length (take n input)) (leb n (length input)))

abbrev pub answered : Buffer × Option (List ℕ) → Option (Buffer × Answer)
answered (b, none) = some (b, refused)
answered (b, some bs) = some (b, got_bytes bs)

abbrev pub answered_byte : Buffer × Option ℕ → Option (Buffer × Answer)
answered_byte (b, none) = some (b, refused)
answered_byte (b, some x) = some (b, answer (x ∷ []) 1 true)

abbrev pub extended : ℕ → Option Buffer → Option (Buffer × Answer)
extended n none = none
extended n (some b) = some (b, answer [] n true)

abbrev pub filled_answer : ℕ → Filled → Answer
filled_answer count out_of_bound = refused
filled_answer count filled = answer [] count true
filled_answer count end_of_input = answer [] count false

abbrev pub filled_from : Option (Buffer × List ℕ × ℕ × Filled) → Option (Buffer × Answer)
filled_from none = none
filled_from (some (b, rest, count, r)) = some (b, filled_answer count r)

-- The operations of the buffer.
unfoldable pub step : Operation → Buffer → Option (Buffer × Answer)
step (on_write bs) b = let (b', n, ok) = write bs b in some (b', answer [] n ok)
step (on_write_byte x) b =
    let (b', ok) = write_byte x b in some (b', (if ok then answer [] 1 true else refused))
step on_read_byte b = answered_byte (read_byte b)
step (on_read_bytes n) b = answered (read_bytes n b)
step (on_read n) b = answered (read n b)
step (on_extend n) b = extended n (extend n b)
step (on_advance n) b = some (advance (from_start n) b, answer [] 0 true)
step on_clear b = some (clear b, answer [] 0 true)
step (on_read_full_from n input) b = filled_from (read_full_from n input b)

-- What a buffer stands for.
abbrev pub view : Buffer → Queue
view b = record { capacity = length b.v; lost = b.start; content = bytes b }

abbrev pub view_of : Option (Buffer × Answer) → Option (Queue × Answer)
view_of none = none
view_of (some (b, a)) = some (view b, a)

-- Both sides after an operation: a valid buffer that stands for what was promised, or a panic.
pub data Agrees : Option (Buffer × Answer) → Option (Queue × Answer) → Type 0 where
  agree :
      (b : Buffer) (q : Queue) (a : Answer)
      → IsValid b
      → view b ≡ q
      → Agrees (some (b, a)) (some (q, a))
  both_panic : Agrees none none
