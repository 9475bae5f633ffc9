-- ===== src/Pipe/Limit.antt =====
-- How much a pipe with a limit holds, and what is left of a pipe that was closed.
use xray_core_python.Prelude.{
  ℕ, ◌+◌, ◌^◌, ◌≤◌, ◌<◌, ◌≡◌, refl, ap, max, true, false, none, some, List, [], ◌∷◌, ◌++◌,
  if◌then◌else◌, arith, Bool-cases, Option-cases, inl, inr,
}
use xray_core_python.Pipe.{
  closed, eof, Pipe, multi_len, multi_empty, pending, is_full, get_state, Result, got, failed,
  read_multi_buffer, append_contents, write_multi_buffer,
}
use xray_core_python.Pipe.Flow.{write_empty, write_accepted, write_refused, read_failed, read_got}

multi_len-append : (xs ys : List (List ℕ)) → multi_len (xs ++ ys) ≡ multi_len xs + multi_len ys
multi_len-append [] ys = omega arith
multi_len-append (x ∷ xs) ys = omega (arith, multi_len-append xs ys)

append_contents-multi_len :
    (mb : List (List ℕ)) (p : Pipe)
    → multi_len (pending (append_contents mb p)) ≡ multi_len (pending p) + multi_len mb
unfolding append_contents
append_contents-multi_len mb p = elim (Option-cases p.contents) [
  | inl e ↦ rw e (omega arith)
  | inr (old, e) ↦ rw e (multi_len-append old mb)
]

not_full :
    (p : Pipe) (limit : ℕ)
    → p.option.limit ≡ some limit
    → multi_len (pending p) < 2 ^ 31
    → get_state false p ≡ none
    → multi_len (pending p) ≤ limit
unfolding get_state is_full
not_full p limit e small s = ground arith

same_len : (p p' : Pipe) → p'.contents ≡ p.contents → multi_len (pending p') ≡ multi_len (pending p)
same_len p p' e = ap (λ c. multi_len (elim c [ none ↦ [] | some mb ↦ mb ])) e

-- A pipe with a limit, and with fewer than 2 ^ 31 bytes pending, holds no more, after a write, than
-- it held before, or than the limit and the one write that went over it.
pub write_multi_buffer_bound :
    (mb : List (List ℕ)) (p : Pipe) (limit : ℕ)
    → p.option.limit ≡ some limit
    → multi_len (pending p) < 2 ^ 31
    → multi_len (pending (write_multi_buffer mb p).0)
      ≤ max (multi_len (pending p)) (limit + multi_len mb)
write_multi_buffer_bound mb p limit e small = elim (Bool-cases (multi_empty mb)) [
  | inl m ↦ rw (write_empty mb p m) (omega arith)
  | inr m ↦ elim (Option-cases (get_state false p)) [
    | inl s ↦
        rw (write_accepted mb p m s)
          (omega (arith, append_contents-multi_len mb p, not_full p limit e small s))
    | inr (err, s) ↦
        omega (arith, same_len p (write_multi_buffer mb p).0 (write_refused mb p err m s).0)
  ]
]

closed_empty :
    (p : Pipe) → p.state ≡ closed → multi_empty (pending p) ≡ true → get_state true p ≡ some eof
unfolding get_state
closed_empty p c e = rw (c, e) refl

closed_pending :
    (p : Pipe) → p.state ≡ closed → multi_empty (pending p) ≡ false → get_state true p ≡ none
unfolding get_state
closed_pending p c e = rw (c, e) refl

read_at_end :
    (p : Pipe)
    → p.state ≡ closed
    → multi_empty (pending p) ≡ true
    → (read_multi_buffer p).1 ≡ failed eof
read_at_end p c e = ap (λ (t : Pipe × Result). t.1) (read_failed p eof (closed_empty p c e))

contents-pending : (p : Pipe) → multi_empty (pending p) ≡ false → p.contents ≡ some (pending p)
contents-pending p e = ground arith

-- A closed pipe never makes its reader wait: the first read gets all that is pending, where that is
-- anything, and the next one the end of the file; it stays closed.
pub read_multi_buffer-closed :
    (p : Pipe)
    → p.state ≡ closed
    → let (p', r) = read_multi_buffer p in
      (r ≡ (if multi_empty (pending p) then failed eof else got (pending p)))
      × ((read_multi_buffer p').1 ≡ failed eof)
      × (p'.state ≡ closed)
read_multi_buffer-closed p c = elim (Bool-cases (multi_empty (pending p))) [
  | inl e ↦
      rw (read_failed p eof (closed_empty p c e), e)
        (refl, read_at_end (record p { write_signal = true }) c e, c)
  | inr e ↦
      rw (read_got p (pending p) (closed_pending p c e) (contents-pending p e), e)
        (refl, read_at_end (record p { contents = none; write_signal = true }) c refl, c)
]
