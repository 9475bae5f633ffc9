-- ===== src/Pipe/Flow.antt =====
-- One event of a pipe: what goes in, what comes out and what is given up.
use xray_core_python.Prelude.{
  ℕ, ◌≡◌, ◌⊎◌, refl, sym, ap, ◌∙◌, Bool, true, false, none, some, List, [], ◌∷◌, ◌++◌, append-nil,
  flatten, flatten-append, arith, Bool-cases, Option-cases, inl, inr,
}
use xray_core_python.Pipe.{
  State, opened, closed, errord, Error, buffer_full, closed_pipe, eof, read_timeout, returned, Pipe,
  multi_empty, pending, get_state, Result, got, failed, waits, read_multi_buffer, append_contents,
  Written, accepted, write_multi_buffer, close, interrupt, Wake, woken,
}

pub data Event : Type 0 where
  on_write : List (List ℕ) → Event
  on_read on_close on_interrupt : Event
  on_wake : Wake → Event

abbrev pub is_interrupt : Event → Bool
is_interrupt on_interrupt = true
is_interrupt _ = false

abbrev pub is_errord : State → Bool
is_errord errord = true
is_errord _ = false

-- The bytes that a write puts into the pipe, and those that a read gets.
abbrev pub taken : List (List ℕ) → Written → List ℕ
taken mb accepted = flatten mb
taken mb _ = []

abbrev pub given : Result → List ℕ
given (got mb) = flatten mb
given _ = []

-- The pipe after an event, what went in and what came out.
unfoldable pub step : Event → Pipe → Pipe × List ℕ × List ℕ
step (on_write mb) p = let (p', r) = write_multi_buffer mb p in (p', taken mb r, [])
step on_read p = let (p', r) = read_multi_buffer p in (p', [], given r)
step on_close p = (close p, [], [])
step on_interrupt p = (interrupt p, [], [])
step (on_wake w) p = ((woken w p).0, [], [])

unfoldable pub run : List Event → Pipe → Pipe × List ℕ × List ℕ
run [] p = (p, [], [])
run (e ∷ es) p =
    let (p1, in1, out1) = step e p in
    let (p2, in2, out2) = run es p1 in (p2, in1 ++ in2, out1 ++ out2)

-- An interrupted pipe: nothing goes in or comes out any more.
pub record IsDead (p : Pipe) : Type 0 where
  pub state_eq : p.state ≡ errord
  pub empty : flatten (pending p) ≡ []

-- The Boolean tells whether an interrupt is among the events.
pub record Flow (b : Bool) (p p' : Pipe) (i o : List ℕ) : Type 0 where
  pub lost : List ℕ
  pub balance : flatten (pending p) ++ i ≡ o ++ (flatten (pending p') ++ lost)
  pub ending : (lost ≡ []) ⊎ IsDead p'
  pub cause : (b ≡ true) ⊎ ((lost ≡ []) × (is_errord p'.state ≡ is_errord p.state))

pub same_contents :
    (p p' : Pipe)
    → p'.contents ≡ p.contents
    → is_errord p'.state ≡ is_errord p.state
    → Flow false p p' [] []
same_contents p p' e s = record {
  lost = [];
  balance = ap (λ c. flatten (elim c [ none ↦ [] | some mb ↦ mb ]) ++ []) (sym e);
  ending = inl refl;
  cause = inr (refl, s);
}

pub State-cases : (s : State) → (s ≡ opened) ⊎ (s ≡ closed) ⊎ (s ≡ errord)
State-cases opened = inl refl
State-cases closed = inr (inl refl)
State-cases errord = inr (inr refl)

pub multi_empty-flatten : (mb : List (List ℕ)) → multi_empty mb ≡ true → flatten mb ≡ []
multi_empty-flatten [] h = refl
multi_empty-flatten ([] ∷ mb) h = multi_empty-flatten mb h
multi_empty-flatten ((x ∷ b) ∷ mb) h = absurd (ground arith)

pub write_empty :
    (mb : List (List ℕ)) (p : Pipe)
    → multi_empty mb ≡ true
    → write_multi_buffer mb p ≡ (p, accepted)
unfolding write_multi_buffer
write_empty mb p e = rw e

pub write_accepted :
    (mb : List (List ℕ)) (p : Pipe)
    → multi_empty mb ≡ false
    → get_state false p ≡ none
    → write_multi_buffer mb p ≡ (record (append_contents mb p) { read_signal = true }, accepted)
unfolding write_multi_buffer
write_accepted mb p e s = rw (e, s)

pub write_refused :
    (mb : List (List ℕ)) (p : Pipe) (err : Error)
    → multi_empty mb ≡ false
    → get_state false p ≡ some err
    → ((write_multi_buffer mb p).0.contents ≡ p.contents)
      × ((write_multi_buffer mb p).0.state ≡ p.state)
      × (taken mb (write_multi_buffer mb p).1 ≡ [])
unfolding write_multi_buffer
write_refused mb p buffer_full e s = elim (Bool-cases p.option.discard_overflow) [
  | inl d ↦ rw (e, s, d) (refl, refl, refl)
  | inr d ↦ rw (e, s, d) (refl, refl, refl)
]
write_refused mb p closed_pipe e s = rw (e, s) (refl, refl, refl)
write_refused mb p eof e s = rw (e, s) (refl, refl, refl)
write_refused mb p read_timeout e s = rw (e, s) (refl, refl, refl)
write_refused mb p (returned n) e s = rw (e, s) (refl, refl, refl)

append_contents-flatten :
    (mb : List (List ℕ)) (p : Pipe)
    → flatten (pending (append_contents mb p)) ≡ flatten (pending p) ++ flatten mb
unfolding append_contents
append_contents-flatten mb p = elim (Option-cases p.contents) [
  | inl e ↦ rw e
  | inr (old, e) ↦ rw e (flatten-append old mb)
]

append_contents-state : (mb : List (List ℕ)) (p : Pipe) → (append_contents mb p).state ≡ p.state
unfolding append_contents
append_contents-state mb p = refl

pub write-Flow :
    (mb : List (List ℕ)) (p : Pipe)
    → Flow false p (write_multi_buffer mb p).0 (taken mb (write_multi_buffer mb p).1) []
write-Flow mb p = elim (Bool-cases (multi_empty mb)) [
  | inl e ↦ rw (write_empty mb p e, multi_empty-flatten mb e) (same_contents p p refl refl)
  | inr e ↦ elim (Option-cases (get_state false p)) [
    | inl s ↦ rw (write_accepted mb p e s) (record {
      lost = [];
      balance =
          sym (append_contents-flatten mb p)
          ∙ sym (append-nil (flatten (pending (append_contents mb p))));
      ending = inl refl;
      cause = inr (refl, ap is_errord (append_contents-state mb p));
    })
    | inr (err, s) ↦
        let k = write_refused mb p err e s in
        rw k.2 (same_contents p (write_multi_buffer mb p).0 k.0 (ap is_errord k.1))
  ]
]

pub read_failed :
    (p : Pipe) (err : Error)
    → get_state true p ≡ some err
    → read_multi_buffer p ≡ (record p { write_signal = true }, failed err)
unfolding read_multi_buffer
read_failed p err s = ground arith

read_waits :
    (p : Pipe) → get_state true p ≡ none → p.contents ≡ none → read_multi_buffer p ≡ (p, waits)
unfolding read_multi_buffer
read_waits p s c = ground arith

pub read_got :
    (p : Pipe) (mb : List (List ℕ))
    → get_state true p ≡ none
    → p.contents ≡ some mb
    → read_multi_buffer p ≡ (record p { contents = none; write_signal = true }, got mb)
unfolding read_multi_buffer
read_got p mb s c = ground arith

pending-some : (p : Pipe) (mb : List (List ℕ)) → p.contents ≡ some mb → pending p ≡ mb
pending-some p mb c = rw c

pub read-Flow : (p : Pipe) → Flow false p (read_multi_buffer p).0 [] (given (read_multi_buffer p).1)
read-Flow p = elim (Option-cases (get_state true p)) [
  | inr (err, s) ↦
      rw (read_failed p err s) (same_contents p (record p { write_signal = true }) refl refl)
  | inl s ↦ elim (Option-cases p.contents) [
    | inl c ↦ rw (read_waits p s c) (same_contents p p refl refl)
    | inr (mb, c) ↦ rw (read_got p mb s c) (record {
      lost = [];
      balance = ap (λ c. flatten c ++ []) (pending-some p mb c);
      ending = inl refl;
      cause = inr (refl, refl);
    })
  ]
]
