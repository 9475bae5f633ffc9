-- ===== src/Tests/Pipes.antt =====
-- Pipes at concrete inputs.
use xray_core_python.Prelude.{
  ℕ, ◌≤◌, ◌≡◌, ◌⊎◌, refl, true, false, none, some, List, [], ◌∷◌, ◌++◌, flatten, arith,
}
use xray_core_python.Pipe.{
  State, opened, closed, errord, eof, PipeOption, Pipe, multi_len, pending, new_pipe, got, failed,
  read_multi_buffer, write_multi_buffer,
}
use xray_core_python.Pipe.Flow.{Event, on_write, on_read, on_close, on_interrupt, is_errord, run}
use xray_core_python.Pipe.Stream.{has_interrupt, run-flatten}
use xray_core_python.Pipe.Limit.{write_multi_buffer_bound, read_multi_buffer-closed}

abbrev limited : PipeOption
limited = record { limit = some 2; discard_overflow = false }

-- The second write is blocked, and made again after the read.
abbrev events : List Event
events =
    on_write ((1 ∷ 2 ∷ 3 ∷ []) ∷ [])
    ∷ on_write ((4 ∷ []) ∷ [])
    ∷ on_read
    ∷ on_write ((4 ∷ []) ∷ [])
    ∷ on_close
    ∷ on_interrupt
    ∷ []

run-flatten_example :
    let (p', accepted_bytes, read_bytes) = run events (new_pipe limited) in
    (lost : List ℕ) × (accepted_bytes ≡ read_bytes ++ (flatten (pending p') ++ lost))
    × ((lost ≡ []) ⊎ (p'.state ≡ errord))
    × ((has_interrupt events ≡ true) ⊎ ((lost ≡ []) × (is_errord p'.state ≡ false)))
run-flatten_example = run-flatten events (new_pipe limited)

abbrev holding : State → Pipe
holding s = record {
  contents = some ((1 ∷ 2 ∷ []) ∷ []);
  read_signal = false;
  write_signal = false;
  done = false;
  err_chan = none;
  option = limited;
  state = s;
}

write_multi_buffer_bound_example :
    multi_len (pending (write_multi_buffer ((3 ∷ 4 ∷ []) ∷ []) (holding opened)).0) ≤ 4
write_multi_buffer_bound_example =
    write_multi_buffer_bound ((3 ∷ 4 ∷ []) ∷ []) (holding opened) 2 refl (omega arith)

read_multi_buffer-closed_example :
    let (p', r) = read_multi_buffer (holding closed) in
    (r ≡ got ((1 ∷ 2 ∷ []) ∷ [])) × ((read_multi_buffer p').1 ≡ failed eof) × (p'.state ≡ closed)
read_multi_buffer-closed_example = read_multi_buffer-closed (holding closed) refl
