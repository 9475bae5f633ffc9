-- ===== src/Tests/Buffers.antt =====
-- Buffers at concrete inputs.
use xray_core_python.Prelude.{
  ℕ, ◌≤◌, ◌≡◌, ◌⊎◌, true, false, none, some, List, [], ◌∷◌, length, arith,
}
use xray_core_python.Buf.{Buffer, new_buffer, from_bytes}
use xray_core_python.Buf.Slices.{IsValid}
use xray_core_python.Buf.Promise.{
  Operation, on_write, on_read_bytes, on_read, on_write_byte, on_extend, on_advance,
  on_read_full_from, view,
}
use xray_core_python.Buf.Refine.{run, promised, view_left, run-promised}
use xray_core_python.Buf.Multi.{compact}
use xray_core_python.Buf.Multi.Content.{multi_bytes, any_empty, compact-multi_bytes}

abbrev pool : List ℕ
pool = 9 ∷ 9 ∷ 9 ∷ 9 ∷ []

abbrev buffer : Buffer
buffer = new_buffer pool

buffer-IsValid : IsValid buffer
buffer-IsValid = record { ordered = omega arith; inside = omega arith }

-- Five bytes do not fit; three are read, and then there is no room for two bytes more.
abbrev operations : List Operation
operations =
    on_write (1 ∷ 2 ∷ 3 ∷ 4 ∷ 5 ∷ [])
    ∷ on_read_bytes 3
    ∷ on_write_byte 6
    ∷ on_read 5
    ∷ on_advance 7
    ∷ on_read_full_from 9 (7 ∷ [])
    ∷ on_extend 5
    ∷ []

run-promised_example :
    (view_left (run operations buffer).0 ≡ (promised operations (view buffer)).0)
    × ((run operations buffer).1 ≡ (promised operations (view buffer)).1)
run-promised_example =
    run-promised operations buffer buffer-IsValid
      (tt, (tt, (tt, (tt, (omega arith, (tt, (tt, tt)))))))

abbrev three : Buffer
three = from_bytes (1 ∷ 2 ∷ 3 ∷ [])

abbrev two : Buffer
two = from_bytes (4 ∷ 5 ∷ [])

three-IsValid : IsValid three
three-IsValid = record { ordered = omega arith; inside = omega arith }

two-IsValid : IsValid two
two-IsValid = record { ordered = omega arith; inside = omega arith }

abbrev buffers : List Buffer
buffers = three ∷ two ∷ []

compact-multi_bytes_example :
    (any_empty (two ∷ []) ≡ true) × (compact buffers ≡ none)
    ⊎ (any_empty (two ∷ []) ≡ false)
      × ((result : List Buffer) × (compact buffers ≡ some result)
          × (multi_bytes result ≡ multi_bytes buffers)
          × (length result ≤ length buffers))
compact-multi_bytes_example = compact-multi_bytes three (two ∷ []) three-IsValid (two-IsValid, tt)
