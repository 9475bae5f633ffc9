-- ===== src/Pipe.antt =====
-- xray-go/transport/pipe/impl.go (and pipe.go, reader.go): a pipe between one part of the program
-- and another. A `MultiBuffer` is the list of its buffers' bytes, and `none` is a nil one. Each
-- method runs alone, under the lock. A call that would block answers `waits`, and is made again
-- when it is woken.
pub mod Flow
pub mod Ending
pub mod Stream
pub mod Limit
use xray_core_python.Prelude.{
  ℕ, zero, suc, ◌+◌, ◌-◌, ◌%◌, ◌^◌, Bool, true, false, ◌&&◌, ◌||◌, not, Option, none, some, List,
  [], ◌∷◌, ◌++◌, ltb, leb, ◌==◌, if◌then◌else◌, length,
}

pub data State : Type 0 where
  opened closed errord : State

pub data Error : Type 0 where
  buffer_full closed_pipe eof read_timeout : Error
  -- What `ReturnAnError` was given.
  returned : ℕ → Error

-- The limit is an int32; `none` stands for every negative one.
pub record PipeOption : Type 0 where
  pub limit : Option ℕ
  pub discard_overflow : Bool

pub record Pipe : Type 0 where
  pub contents : Option (List (List ℕ))
  -- A signal waits in the notifier.
  pub read_signal : Bool
  pub write_signal : Bool
  pub done : Bool
  -- The channel of capacity 1.
  pub err_chan : Option Error
  pub option : PipeOption
  pub state : State

abbrev pub multi_len : List (List ℕ) → ℕ
multi_len [] = 0
multi_len (b ∷ mb) = length b + multi_len mb

abbrev pub multi_empty : List (List ℕ) → Bool
multi_empty [] = true
multi_empty (b ∷ mb) = if length b == 0 then multi_empty mb else false

-- A nil `MultiBuffer` has the length 0 and is empty.
abbrev pub pending : Pipe → List (List ℕ)
pending p = elim p.contents [ none ↦ [] | some mb ↦ mb ]

-- `New`, with the options applied.
abbrev pub new_pipe : PipeOption → Pipe
new_pipe option = record {
  contents = none;
  read_signal = false;
  write_signal = false;
  done = false;
  err_chan = none;
  option = option;
  state = opened;
}

-- The test of an int32 `curSize`, given modulo 2 ^ 32, against the limit.
unfoldable pub is_full : ℕ → PipeOption → Bool
is_full cur_size o = elim o.limit [
  | none ↦ false
  | some limit ↦ let size = cur_size % 2 ^ 32 in if ltb size (2 ^ 31) then ltb limit size else false
]

unfoldable pub get_state : Bool → Pipe → Option Error
get_state for_read p = elim p.state [
  | opened ↦
      if for_read
      then none
      else if is_full (multi_len (pending p)) p.option
      then some buffer_full
      else none
  | closed ↦
      if for_read then (if multi_empty (pending p) then some eof else none) else some closed_pipe
  | errord ↦ some closed_pipe
]

pub data Result : Type 0 where
  got : List (List ℕ) → Result
  failed : Error → Result
  waits : Result

-- One round of `ReadMultiBuffer`, up to the wait.
unfoldable pub read_multi_buffer : Pipe → Pipe × Result
read_multi_buffer p = elim (get_state true p) [
  | some e ↦ (record p { write_signal = true }, failed e)
  | none ↦ elim p.contents [
    | none ↦ (p, waits)
    | some mb ↦ (record p { contents = none; write_signal = true }, got mb)
  ]
]

-- `MergeMulti`, or the first data.
unfoldable pub append_contents : List (List ℕ) → Pipe → Pipe
append_contents mb p = record p {
  contents = elim p.contents [ none ↦ some mb | some old ↦ some (old ++ mb) ];
}

pub data Written : Type 0 where
  accepted discarded blocked : Written
  refused : Error → Written

-- One round of `WriteMultiBuffer`, up to the wait. A write of nothing is accepted at once.
unfoldable pub write_multi_buffer : List (List ℕ) → Pipe → Pipe × Written
write_multi_buffer mb p = if multi_empty mb then (p, accepted) else elim (get_state false p) [
  | none ↦ (record (append_contents mb p) { read_signal = true }, accepted)
  | some buffer_full ↦ if p.option.discard_overflow then (p, discarded) else (p, blocked)
  | some e ↦ (record p { read_signal = true }, refused e)
]

unfoldable pub close : Pipe → Pipe
close p = elim p.state [
  | opened ↦ record p { state = closed; done = true }
  | closed ↦ p
  | errord ↦ p
]

-- The part of `Interrupt` that gives up what is pending.
unfoldable pub drop_contents : Pipe → Pipe
drop_contents p = if multi_empty (pending p) then p else record p {
  contents = none;
  state = elim p.state [ opened ↦ opened | closed ↦ errord | errord ↦ errord ];
}

-- The rest of `Interrupt`.
unfoldable pub finish : Pipe → Pipe
finish p = elim p.state [
  | opened ↦ record p { state = errord; done = true }
  | closed ↦ p
  | errord ↦ p
]

unfoldable pub interrupt : Pipe → Pipe
interrupt p = finish (drop_contents p)

-- What a waiting read is woken by: a signal that it takes, the end, an error that it takes, or, in
-- `ReadMultiBufferTimeout`, the timer. `none` is another round.
pub data Wake : Type 0 where
  by_signal by_done by_error by_timer : Wake

unfoldable pub woken : Wake → Pipe → Pipe × Option Error
woken by_signal p = (record p { read_signal = false }, none)
woken by_done p = (p, none)
woken by_error p = (record p { err_chan = none }, p.err_chan)
woken by_timer p = (p, some read_timeout)
