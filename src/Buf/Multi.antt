-- ===== src/Buf/Multi.antt =====
-- xray-go/common/buf/multi_buffer.go: lists of buffers. What a function takes apart it owns, so that
-- the buffers it released or emptied are not looked at again.
pub mod Content
pub mod Merging
pub mod Splitting
use xray_core_python.Prelude.{
  ℕ, zero, suc, ◌+◌, ◌-◌, ◌≤◌, min, Bool, true, false, Option, none, some, List, [], ◌∷◌, ◌++◌, map,
  ltb, leb, ◌==◌, if◌then◌else◌, length, take, drop, flatten,
}
use xray_core_python.Buf.{
  Buffer, len, available, is_empty, is_full, bytes, new_buffer, overwrite, write, extend, advance,
  from_start, clear, zeros, regular_size,
}

abbrev pub merge_multi : List Buffer → List Buffer → List Buffer
merge_multi dest src = dest ++ src

abbrev pub split_first : List Buffer → List Buffer × Option Buffer
split_first [] = ([], none)
split_first (b ∷ mb) = (mb, some b)

-- `Copy` into a slice with some room, up to the first buffer that does not fit.
unfoldable pub copy : ℕ → List Buffer → List ℕ
copy room [] = []
copy room (b ∷ mb) =
    let rest = copy (room - len b) mb in
    if ltb room (len b) then take room (bytes b) else bytes b ++ rest

-- The buffers that `MergeBytes` adds, on fuel. `pool` is what the bytes of a new buffer hold.
unfoldable pub new_chunks : List ℕ → ℕ → List ℕ → List Buffer
new_chunks pool zero src = []
new_chunks pool (suc fuel) src =
    let (b, n, ok) = write src (new_buffer pool) in
    let rest = new_chunks pool fuel (drop n src) in if length src == 0 then [] else b ∷ rest

-- `MergeBytes`: the last buffer is filled up first.
unfoldable pub merge_bytes : List ℕ → List Buffer → List ℕ → List Buffer
unfolding new_chunks
merge_bytes pool [] src = new_chunks pool (length src) src
merge_bytes pool (b ∷ []) src =
    let (b', n, ok) = write src b in
    if is_full b
    then b ∷ new_chunks pool (length src) src
    else b' ∷ new_chunks pool (length src) (drop n src)
merge_bytes pool (b ∷ (c ∷ mb)) src = b ∷ merge_bytes pool (c ∷ mb) src

-- `last.ReadFrom(curr)`: all of `curr`, which has room. An empty `curr` answers `io.EOF`, on which
-- `common.Must2` panics.
unfoldable pub read_from_buffer : Buffer → Buffer → Option Buffer
read_from_buffer last curr = if is_empty curr then none else some ((write (bytes curr) last).0)

-- The loop of `Compact`.
unfoldable pub compact_loop : Buffer → List Buffer → Option (List Buffer)
compact_loop last [] = some (last ∷ [])
compact_loop last (curr ∷ mb) =
    if ltb (available last) (len curr)
    then (elim (compact_loop curr mb) [ none ↦ none | some rest ↦ some (last ∷ rest) ])
    else (elim (read_from_buffer last curr) [ none ↦ none | some merged ↦ compact_loop merged mb ])

unfoldable pub compact : List Buffer → Option (List Buffer)
unfolding compact_loop
compact [] = some []
compact (b ∷ mb) = compact_loop b mb

-- The loop of `SplitSize`: the buffers that fit, and those from the first that does not.
unfoldable pub split_fitting : ℕ → List Buffer → List Buffer × List Buffer
split_fitting size [] = ([], [])
split_fitting size (b ∷ mb) =
    let (r, rest) = split_fitting (size - len b) mb in
    if ltb size (len b) then ([], b ∷ mb) else (b ∷ r, rest)

-- A new buffer with the first bytes of another; `none` where it has no room for them.
unfoldable pub copy_front : List ℕ → ℕ → Buffer → Option Buffer
copy_front pool size b = elim (extend size (new_buffer pool)) [
  | none ↦ none
  | some n ↦ some (record n { v = overwrite 0 (take size (bytes b)) n.v })
]

-- `SplitSize`: what is left, and what was split off.
unfoldable pub split_size : List ℕ → ℕ → List Buffer → Option (List Buffer × List Buffer)
unfolding split_fitting copy_front
split_size pool size [] = some ([], [])
split_size pool size (b ∷ mb) =
    if ltb size (len b)
    then (elim (copy_front pool size b) [
      | none ↦ none
      | some front ↦ some (advance (from_start size) b ∷ mb, front ∷ [])
    ])
    else (let (r, rest) = split_fitting size (b ∷ mb) in some (rest, r))

-- `SplitMulti` at an index that is not negative.
abbrev pub split_multi : ℕ → List Buffer → List Buffer × List Buffer
split_multi i mb = (take i mb, drop i mb)
