-- ===== src/Pipe/Stream.antt =====
-- A pipe hands over, in order, the bytes that were written.
use xray_core_python.Prelude.{
  ℕ, ◌≡◌, ◌⊎◌, refl, sym, ap, ◌∙◌, Bool, ◌||◌, true, false, none, some, List, [], ◌∷◌, ◌++◌,
  append_assoc, append-nil, flatten, Bool-cases, inl, inr,
}
use xray_core_python.Pipe.{
  errord, closed_pipe, Pipe, multi_empty, pending, get_state, read_multi_buffer, write_multi_buffer,
  close, drop_contents, interrupt, Wake, by_signal, by_done, by_error, by_timer, woken,
}
use xray_core_python.Pipe.Flow.{
  Event, on_write, on_read, on_close, on_interrupt, on_wake, taken, given, step, run, is_interrupt,
  is_errord, IsDead, Flow, same_contents, multi_empty-flatten, write_empty, write_refused,
  read_failed,
}
use xray_core_python.Pipe.Ending.{
  drop_contents_empty, finish_errord, interrupt_empty, interrupt_full, no_contents, step-Flow,
}

-- Nothing moves through a dead pipe.
write_dead :
    (mb : List (List ℕ)) (p : Pipe) → p.state ≡ errord → get_state false p ≡ some closed_pipe
unfolding get_state
write_dead mb p d = rw d refl

read_dead : (p : Pipe) → p.state ≡ errord → get_state true p ≡ some closed_pipe
unfolding get_state
read_dead p d = rw d refl

still-IsDead : (p p' : Pipe) → p'.contents ≡ p.contents → p'.state ≡ p.state → IsDead p → IsDead p'
still-IsDead p p' c s d = record {
  state_eq = s ∙ d.state_eq;
  empty = ap (λ c. flatten (elim c [ none ↦ [] | some mb ↦ mb ])) c ∙ d.empty;
}

record Stuck (p : Pipe) (i o : List ℕ) : Type 0 where
  dead : IsDead p
  nothing_in : i ≡ []
  nothing_out : o ≡ []

write-Stuck :
    (mb : List (List ℕ)) (p : Pipe)
    → IsDead p
    → Stuck (write_multi_buffer mb p).0 (taken mb (write_multi_buffer mb p).1) []
write-Stuck mb p d = elim (Bool-cases (multi_empty mb)) [
  | inl e ↦
      rw (write_empty mb p e)
        (record { dead = d; nothing_in = multi_empty-flatten mb e; nothing_out = refl })
  | inr e ↦
      let (c, s, t) = write_refused mb p closed_pipe e (write_dead mb p d.state_eq) in
      record {
        dead = still-IsDead p (write_multi_buffer mb p).0 c s d;
        nothing_in = t;
        nothing_out = refl;
      }
]

read-Stuck :
    (p : Pipe) → IsDead p → Stuck (read_multi_buffer p).0 [] (given (read_multi_buffer p).1)
read-Stuck p d = rw (read_failed p closed_pipe (read_dead p d.state_eq)) (record {
  dead = still-IsDead p (record p { write_signal = true }) refl refl d;
  nothing_in = refl;
  nothing_out = refl;
})

close_dead : (p : Pipe) → p.state ≡ errord → close p ≡ p
unfolding close
close_dead p d = rw d refl

interrupt-IsDead : (p : Pipe) → IsDead p → IsDead (interrupt p)
unfolding interrupt
interrupt-IsDead p d = elim (Bool-cases (multi_empty (pending p))) [
  | inl e ↦
      still-IsDead p (interrupt p) (interrupt_empty p e)
        (finish_errord (drop_contents p)
            (inr (ap (λ (q : Pipe). q.state) (drop_contents_empty p e) ∙ d.state_eq))
          ∙ sym d.state_eq)
        d
  | inr e ↦
      let (k, s) = interrupt_full p e in
      record { state_eq = s; empty = no_contents (interrupt p) k }
]

quiet : {p : Pipe} → IsDead p → Stuck p [] []
quiet d = record { dead = d; nothing_in = refl; nothing_out = refl }

woken-IsDead : (w : Wake) (p : Pipe) → IsDead p → IsDead (woken w p).0
unfolding woken
woken-IsDead by_signal p d = still-IsDead p (record p { read_signal = false }) refl refl d
woken-IsDead by_done p d = d
woken-IsDead by_error p d = still-IsDead p (record p { err_chan = none }) refl refl d
woken-IsDead by_timer p d = d

step-Stuck : (e : Event) (p : Pipe) → IsDead p → Stuck (step e p).0 (step e p).1 (step e p).2
unfolding step
step-Stuck (on_write mb) p d = write-Stuck mb p d
step-Stuck on_read p d = read-Stuck p d
step-Stuck on_close p d = rw (close_dead p d.state_eq) (quiet d)
step-Stuck on_interrupt p d = quiet (interrupt-IsDead p d)
step-Stuck (on_wake w) p d = quiet (woken-IsDead w p d)

run-Stuck : (es : List Event) (p : Pipe) → IsDead p → Stuck (run es p).0 (run es p).1 (run es p).2
unfolding run
run-Stuck [] p d = quiet d
run-Stuck (e ∷ es) p d =
    let one = step-Stuck e p d in
    let rest = run-Stuck es (step e p).0 one.dead in
    record {
      dead = rest.dead;
      nothing_in = rw one.nothing_in rest.nothing_in;
      nothing_out = rw one.nothing_out rest.nothing_out;
    }

abbrev pub has_interrupt : List Event → Bool
has_interrupt [] = false
has_interrupt (e ∷ es) = is_interrupt e || has_interrupt es

or_left : (a b : Bool) → a ≡ true → a || b ≡ true
or_left a b h = rw h refl

or_right : (a b : Bool) → b ≡ true → a || b ≡ true
or_right true b h = refl
or_right false b h = h

-- What one flow and the next amount to.
next-Flow :
    (b1 b2 : Bool) (p p1 p2 : Pipe) (in1 in2 out1 out2 : List ℕ)
    → Flow b1 p p1 in1 out1
    → Flow b2 p1 p2 in2 out2
    → (IsDead p1 → Stuck p2 in2 out2)
    → Flow (b1 || b2) p p2 (in1 ++ in2) (out1 ++ out2)
next-Flow b1 b2 p p1 p2 in1 in2 out1 out2 f g stuck = elim f.ending [
  | inl kept ↦ record {
    lost = g.lost;
    balance =
        sym (append_assoc (flatten (pending p)) in1 in2)
        ∙ ap (λ t. t ++ in2)
            (f.balance
              ∙ ap (λ t. out1 ++ (flatten (pending p1) ++ t)) kept
              ∙ ap (λ t. out1 ++ t) (append-nil (flatten (pending p1))))
        ∙ append_assoc out1 (flatten (pending p1)) in2
        ∙ ap (λ t. out1 ++ t) g.balance
        ∙ sym (append_assoc out1 out2 (flatten (pending p2) ++ g.lost));
    ending = g.ending;
    cause = elim f.cause [
      | inl h ↦ inl (or_left b1 b2 h)
      | inr fs ↦ elim g.cause [ inl h ↦ inl (or_right b1 b2 h) | inr gs ↦ inr (gs.0, gs.1 ∙ fs.1) ]
    ];
  }
  | inr d ↦
      let s = stuck d in
      record {
        lost = f.lost;
        balance =
            ap (λ t. flatten (pending p) ++ (in1 ++ t)) s.nothing_in
            ∙ ap (λ t. flatten (pending p) ++ t) (append-nil in1)
            ∙ f.balance
            ∙ ap (λ t. out1 ++ (t ++ f.lost)) (d.empty ∙ sym s.dead.empty)
            ∙ ap (λ t. t ++ (flatten (pending p2) ++ f.lost))
                (sym (append-nil out1) ∙ ap (λ t. out1 ++ t) (sym s.nothing_out));
        ending = inr s.dead;
        cause = elim f.cause [
          | inl h ↦ inl (or_left b1 b2 h)
          | inr fs ↦ inr (fs.0, ap is_errord (s.dead.state_eq ∙ sym d.state_eq) ∙ fs.1)
        ];
      }
]

run-Flow :
    (es : List Event) (p : Pipe) → Flow (has_interrupt es) p (run es p).0 (run es p).1 (run es p).2
unfolding run
run-Flow [] p = same_contents p p refl refl
run-Flow (e ∷ es) p =
    let p1 = (step e p).0 in
    next-Flow (is_interrupt e) (has_interrupt es) p p1 (run es p1).0 (step e p).1 (run es p1).1
      (step e p).2 (run es p1).2 (step-Flow e p) (run-Flow es p1) (run-Stuck es p1)

-- Over any run of writes, reads, closes, interrupts and wake-ups, the bytes that were pending and
-- those accepted since are, in order, the bytes read, those pending now, and those given up. None
-- are given up unless the pipe is in its errored state; and where no interrupt is among the events,
-- none are given up at all, and the pipe is in its errored state only if it was before.
pub run-flatten :
    (es : List Event) (p : Pipe)
    → let (p', accepted_bytes, read_bytes) = run es p in
      (lost : List ℕ) × (flatten (pending p) ++ accepted_bytes
        ≡ read_bytes ++ (flatten (pending p') ++ lost))
      × ((lost ≡ []) ⊎ (p'.state ≡ errord))
      × ((has_interrupt es ≡ true) ⊎ ((lost ≡ []) × (is_errord p'.state ≡ is_errord p.state)))
run-flatten es p =
    let f = run-Flow es p in
    (f.lost, f.balance, elim f.ending [ inl k ↦ inl k | inr d ↦ inr d.state_eq ], f.cause)
