-- ===== src/Pipe/Ending.antt =====
-- The end of a pipe: what a close and an interrupt leave of its contents, and the flow of any event.
use xray_core_python.Prelude.{
  ◌≡◌, ◌⊎◌, refl, sym, ap, ◌∙◌, true, false, none, some, [], ◌++◌, append-nil, flatten, Bool-cases,
  inl, inr,
}
use xray_core_python.Pipe.{
  opened, errord, Pipe, multi_empty, pending, close, drop_contents, finish, interrupt, Wake,
  by_signal, by_done, by_error, by_timer, woken,
}
use xray_core_python.Pipe.Flow.{
  Event, on_write, on_read, on_close, on_interrupt, on_wake, is_interrupt, is_errord, step, Flow,
  same_contents, State-cases, write-Flow, read-Flow,
}

close-contents : (p : Pipe) → ((close p).contents ≡ p.contents)
unfolding close
close-contents p = elim (State-cases p.state) [
  | inl o ↦ rw o refl
  | inr (inl c) ↦ rw c refl
  | inr (inr e) ↦ rw e refl
]

close-is_errord : (p : Pipe) → is_errord (close p).state ≡ is_errord p.state
unfolding close
close-is_errord p = elim (State-cases p.state) [
  | inl o ↦ rw o refl
  | inr (inl c) ↦ rw c refl
  | inr (inr e) ↦ rw e refl
]

pub drop_contents_empty : (p : Pipe) → multi_empty (pending p) ≡ true → drop_contents p ≡ p
unfolding drop_contents
drop_contents_empty p e = rw e

finish-contents : (p : Pipe) → (finish p).contents ≡ p.contents
unfolding finish
finish-contents p = elim (State-cases p.state) [
  | inl o ↦ rw o refl
  | inr (inl c) ↦ rw c refl
  | inr (inr d) ↦ rw d refl
]

pub finish_errord : (p : Pipe) → (p.state ≡ opened) ⊎ (p.state ≡ errord) → (finish p).state ≡ errord
unfolding finish
finish_errord p (inl o) = rw o refl
finish_errord p (inr d) = rw d refl

pub interrupt_empty :
    (p : Pipe) → multi_empty (pending p) ≡ true → (interrupt p).contents ≡ p.contents
unfolding interrupt
interrupt_empty p e =
    finish-contents (drop_contents p) ∙ ap (λ (q : Pipe). q.contents) (drop_contents_empty p e)

drop_contents_full :
    (p : Pipe)
    → multi_empty (pending p) ≡ false
    → ((drop_contents p).contents ≡ none)
      × (((drop_contents p).state ≡ opened) ⊎ ((drop_contents p).state ≡ errord))
unfolding drop_contents
drop_contents_full p e = elim (State-cases p.state) [
  | inl o ↦ rw (e, o) (refl, inl refl)
  | inr (inl c) ↦ rw (e, c) (refl, inr refl)
  | inr (inr d) ↦ rw (e, d) (refl, inr refl)
]

pub interrupt_full :
    (p : Pipe)
    → multi_empty (pending p) ≡ false
    → ((interrupt p).contents ≡ none) × ((interrupt p).state ≡ errord)
unfolding interrupt
interrupt_full p e =
    let (k, s) = drop_contents_full p e in
    (finish-contents (drop_contents p) ∙ k, finish_errord (drop_contents p) s)

pub no_contents : (p : Pipe) → p.contents ≡ none → flatten (pending p) ≡ []
no_contents p e = rw e

interrupt-Flow : (p : Pipe) → Flow true p (interrupt p) [] []
interrupt-Flow p = elim (Bool-cases (multi_empty (pending p))) [
  | inl e ↦ record {
    lost = [];
    balance =
        ap (λ c. flatten (elim c [ none ↦ [] | some mb ↦ mb ]) ++ []) (sym (interrupt_empty p e));
    ending = inl refl;
    cause = inl refl;
  }
  | inr e ↦
      let (k, s) = interrupt_full p e in
      record {
        lost = flatten (pending p);
        balance = rw (no_contents (interrupt p) k, append-nil (flatten (pending p)));
        ending = inr (record { state_eq = s; empty = no_contents (interrupt p) k });
        cause = inl refl;
      }
]

woken-contents : (w : Wake) (p : Pipe) → (woken w p).0.contents ≡ p.contents
unfolding woken
woken-contents by_signal p = refl
woken-contents by_done p = refl
woken-contents by_error p = refl
woken-contents by_timer p = refl

woken-state : (w : Wake) (p : Pipe) → (woken w p).0.state ≡ p.state
unfolding woken
woken-state by_signal p = refl
woken-state by_done p = refl
woken-state by_error p = refl
woken-state by_timer p = refl

pub step-Flow :
    (e : Event) (p : Pipe) → Flow (is_interrupt e) p (step e p).0 (step e p).1 (step e p).2
unfolding step
step-Flow (on_write mb) p = write-Flow mb p
step-Flow on_read p = read-Flow p
step-Flow on_close p = same_contents p (close p) (close-contents p) (close-is_errord p)
step-Flow on_interrupt p = interrupt-Flow p
step-Flow (on_wake w) p =
    same_contents p (woken w p).0 (woken-contents w p) (ap is_errord (woken-state w p))
