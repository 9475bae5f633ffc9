-- ===== src/Buf/Steps.antt =====
-- Each operation of a buffer does what the queue of bytes promises.
use xray_core_python.Prelude.{
  ℕ, ◌+◌, ◌≤◌, ◌<◌, ◌≡◌, refl, sym, ap, ap₂, ◌∙◌, min, true, false, some, List, [], ◌∷◌, ltb, leb,
  ◌==◌, length, get_or, take, drop, length-take, take-all, drop-all, subst, arith, Bool-cases, inl,
  inr,
}
use xray_core_python.Buf.{
  Buffer, len, available, is_empty, is_full, bytes, overwrite, zeros, extend, clear, advance, write,
  write_byte, read_byte, read_bytes, read, read_full_from,
}
use xray_core_python.Buf.Slices.{
  IsValid, length-bytes, length-overwrite, bytes-overwrite, bytes-drop, slice-take, get_or-bytes,
  length-zeros,
}
use xray_core_python.Buf.Promise.{
  Agrees, Operation, agree, answer, append, both_panic, drop_front, got_bytes, on_advance, on_clear,
  on_extend, on_read, on_read_byte, on_read_bytes, on_read_full_from, on_write, on_write_byte,
  promise, refused, room, step, view,
}

room-view : (b : Buffer) → IsValid b → room (view b) ≡ available b
room-view b h = omega (arith, length-bytes b h, h.ordered, h.inside)

pub append-view :
    (n : ℕ) (bs : List ℕ) (b : Buffer)
    → IsValid b
    → length bs ≡ n
    → b.stop + n ≤ length b.v
    → IsValid (record b { v = overwrite b.stop bs b.v; stop = b.stop + n })
      × (view (record b { v = overwrite b.stop bs b.v; stop = b.stop + n }) ≡ append bs (view b))
append-view n bs b h e fits =
    let small : b.stop + length bs ≤ length b.v = omega (arith, e, fits) in
    let same = length-overwrite b.stop bs b.v small in
    (
      record { ordered = omega (arith, h.ordered); inside = omega (arith, same, fits) },
      ap₂ (λ (c : ℕ) (t : List ℕ). record { capacity = c; lost = b.start; content = t }) same
          (ap (λ m. drop b.start (take (b.stop + m) (overwrite b.stop bs b.v))) (sym e)
            ∙ bytes-overwrite bs b h small),
    )

pub drop-view :
    (n : ℕ) (b : Buffer)
    → IsValid b
    → b.start + n ≤ b.stop
    → IsValid (record b { start = b.start + n })
      × (view (record b { start = b.start + n }) ≡ drop_front n (view b))
drop-view n b h fits = (
  record { ordered = fits; inside = h.inside },
  ap (λ t. record { capacity = length b.v; lost = b.start + n; content = t }) (bytes-drop n b),
)

write-Agrees :
    (bs : List ℕ) (b : Buffer)
    → IsValid b
    → Agrees (step (on_write bs) b) (promise (on_write bs) (view b))
unfolding step write promise
write-Agrees bs b h =
    let n = min (available b) (length bs) in
    let (valid, same) =
      append-view n (take n bs) b h (omega (arith, length-take n bs)) (omega (arith, h.inside)) in
    subst
      (λ r. Agrees (step (on_write bs) b) (
        some (
          append (take (min r (length bs)) bs) (view b),
          answer [] (min r (length bs)) (leb (length bs) (min r (length bs))),
        )))
      (sym (room-view b h)) (agree _ _ _ valid same)

write_byte-Agrees :
    (x : ℕ) (b : Buffer)
    → IsValid b
    → Agrees (step (on_write_byte x) b) (promise (on_write_byte x) (view b))
unfolding step write_byte promise
write_byte-Agrees x b h = elim (Bool-cases (is_full b)) [
  | inl f ↦
      let e : (room (view b) == 0) ≡ true = ground (arith, room-view b h) in
      rw (f, e) (agree b (view b) refused h refl)
  | inr f ↦
      let e : (room (view b) == 0) ≡ false = ground (arith, room-view b h, h.inside) in
      let (valid, same) = append-view 1 (x ∷ []) b h refl (ground (arith, h.inside)) in
      rw (f, e) (agree _ _ (answer [] 1 true) valid same)
]

read_full_from-Agrees :
    (n : ℕ) (input : List ℕ) (b : Buffer)
    → IsValid b
    → Agrees (step (on_read_full_from n input) b) (promise (on_read_full_from n input) (view b))
unfolding step read_full_from promise
read_full_from-Agrees n input b h =
    let got = take n input in
    elim (Bool-cases (ltb (length b.v) (b.stop + n))) [
      | inl f ↦
          let e : ltb (room (view b)) n ≡ true = ground (arith, room-view b h, h.inside) in
          let same_end : (b.start + length (bytes b)) + n ≡ b.stop + n =
            omega (arith, length-bytes b h, h.ordered) in
          elim (Bool-cases (ltb (b.stop + n) 2147483648)) [
            | inl k ↦ rw (f, e, same_end, k) (agree b (view b) refused h refl)
            | inr k ↦ rw (f, e, same_end, k) both_panic
          ]
      | inr f ↦
          let e : ltb (room (view b)) n ≡ false = ground (arith, room-view b h, h.inside) in
          let (valid, same) =
            append-view (length got) got b h refl (ground (arith, length-take n input)) in
          elim (Bool-cases (ltb (length input) n)) [
            | inl g ↦
                let k : leb n (length input) ≡ false = ground arith in
                rw (f, e, g, k) (agree _ _ _ valid same)
            | inr g ↦
                let k : leb n (length input) ≡ true = ground arith in
                rw (f, e, g, k) (agree _ _ _ valid same)
          ]
    ]

read_bytes-Agrees :
    (n : ℕ) (b : Buffer)
    → IsValid b
    → Agrees (step (on_read_bytes n) b) (promise (on_read_bytes n) (view b))
unfolding step read_bytes promise
read_bytes-Agrees n b h = elim (Bool-cases (ltb (len b) n)) [
  | inl f ↦
      let e : ltb (length (bytes b)) n ≡ true = ground (arith, length-bytes b h) in
      rw (f, e) (agree b (view b) refused h refl)
  | inr f ↦
      let e : ltb (length (bytes b)) n ≡ false = ground (arith, length-bytes b h) in
      let fits : b.start + n ≤ b.stop = ground (arith, h.ordered) in
      let (valid, same) = drop-view n b h fits in
      rw (f, e, slice-take n b fits) (agree _ _ _ valid same)
]

read-Agrees :
    (n : ℕ) (b : Buffer) → IsValid b → Agrees (step (on_read n) b) (promise (on_read n) (view b))
unfolding step read promise
read-Agrees n b h = elim (Bool-cases (is_empty b)) [
  | inl f ↦
      let e : (length (bytes b) == 0) ≡ true = ground (arith, length-bytes b h) in
      rw (f, e) (agree b (view b) refused h refl)
  | inr f ↦
      let e : (length (bytes b) == 0) ≡ false = ground (arith, length-bytes b h) in
      elim (Bool-cases (min n (len b) == len b)) [
        | inl g ↦
            let k : leb (length (bytes b)) n ≡ true = ground (arith, length-bytes b h) in
            let all : take (min n (len b)) (bytes b) ≡ bytes b =
              take-all (min n (len b)) (bytes b) (ground (arith, length-bytes b h)) in
            rw (f, e, g, k, all)
              (agree _ _ (got_bytes (bytes b))
                (record { ordered = omega arith; inside = omega arith }) refl)
        | inr g ↦
            let k : leb (length (bytes b)) n ≡ false = ground (arith, length-bytes b h) in
            let small : min n (len b) ≡ n = ground arith in
            let (valid, same) = drop-view n b h (ground (arith, h.ordered)) in
            rw (f, e, g, k, small) (agree _ _ _ valid same)
      ]
]

extend-Agrees :
    (n : ℕ) (b : Buffer)
    → IsValid b
    → Agrees (step (on_extend n) b) (promise (on_extend n) (view b))
unfolding step extend promise
extend-Agrees n b h = elim (Bool-cases (ltb (length b.v) (b.stop + n))) [
  | inl f ↦
      let e : ltb (room (view b)) n ≡ true = ground (arith, room-view b h, h.inside) in
      rw (f, e) both_panic
  | inr f ↦
      let e : ltb (room (view b)) n ≡ false = ground (arith, room-view b h, h.inside) in
      let (valid, same) = append-view n (zeros n) b h (length-zeros n) (ground arith) in
      rw (f, e) (agree _ _ _ valid same)
]

-- What an operation may be asked for, at a capacity: to advance by as much as an int32 holds.
abbrev pub IsSmall : ℕ → Operation → Type 0
IsSmall capacity (on_advance n) = capacity + n < 2147483648
IsSmall capacity _ = Unit

advance-Agrees :
    (n : ℕ) (b : Buffer)
    → IsValid b
    → length b.v + n < 2147483648
    → Agrees (step (on_advance n) b) (promise (on_advance n) (view b))
unfolding step advance promise
advance-Agrees n b h small =
    let len_eq = length-bytes b h in
    elim (Bool-cases (leb (b.start + n) b.stop)) [
      | inl f ↦
          let e : min n (length (bytes b)) ≡ n = ground (arith, len_eq) in
          let (valid, same) = drop-view n b h (ground arith) in rw (f, e) (agree _ _ _ valid same)
      | inr f ↦
          let fits : ltb (b.start + n) 2147483648 ≡ true = ground (arith, h.ordered, h.inside) in
          let m = length (bytes b) in
          let e : min n m ≡ m = ground (arith, len_eq) in
          let at_end : b.stop ≡ b.start + m = omega (arith, len_eq, h.ordered) in
          let (valid, same) = drop-view m b h (omega (arith, at_end)) in
          rw (f, fits, e)
            (subst
              (λ k.
                Agrees (some (record b { start = k }, answer [] 0 true))
                  (some (drop_front m (view b), answer [] 0 true)))
              (sym at_end) (agree _ _ _ valid same))
    ]

uncons : (l : List ℕ) → 1 ≤ length l → get_or l 0 0 ∷ drop 1 l ≡ l
uncons [] h = absurd (omega arith)
uncons (x ∷ l) h = refl

read_byte-Agrees :
    (b : Buffer) → IsValid b → Agrees (step on_read_byte b) (promise on_read_byte (view b))
unfolding step read_byte promise
read_byte-Agrees b h = elim (Bool-cases (b.start == b.stop)) [
  | inl f ↦
      let e : [] ≡ bytes b =
        sym (drop-all b.start (take b.stop b.v) (ground (arith, length-take b.stop b.v))) in
      rw f (
        subst
          (λ t.
            Agrees (some (b, refused)) (
              promise on_read_byte (record { capacity = length b.v; lost = b.start; content = t })))
          e
          (agree b _ refused h
            (ap (λ t. record { capacity = length b.v; lost = b.start; content = t }) (sym e))))
  | inr f ↦
      let more : b.start + 1 ≤ b.stop = ground (arith, h.ordered) in
      let same_byte : get_or (bytes b) 0 0 ≡ get_or b.v b.start 0 =
        get_or-bytes 0 b (omega (arith, more)) ∙ ap (λ i. get_or b.v i 0) (omega arith) in
      let (valid, same) = drop-view 1 b h more in
      rw (f, ← same_byte)
        (subst
          (λ t.
            Agrees
              (some (record b { start = b.start + 1 }, answer (get_or (bytes b) 0 0 ∷ []) 1 true))
              (promise on_read_byte
                (record { capacity = length b.v; lost = b.start; content = t })))
          (uncons (bytes b) (omega (arith, length-bytes b h, more))) (agree _ _ _ valid same))
]

pub step-Agrees :
    (o : Operation) (b : Buffer)
    → IsValid b
    → IsSmall (length b.v) o
    → Agrees (step o b) (promise o (view b))
step-Agrees (on_write bs) b h small = write-Agrees bs b h
step-Agrees (on_write_byte x) b h small = write_byte-Agrees x b h
step-Agrees on_read_byte b h small = read_byte-Agrees b h
step-Agrees (on_read_bytes n) b h small = read_bytes-Agrees n b h
step-Agrees (on_read n) b h small = read-Agrees n b h
step-Agrees (on_extend n) b h small = extend-Agrees n b h
step-Agrees (on_advance n) b h small = advance-Agrees n b h small
step-Agrees on_clear b h small =
    unfold step clear promise in
    agree (clear b) _ (answer [] 0 true) (record { ordered = omega arith; inside = omega arith })
      refl
step-Agrees (on_read_full_from n input) b h small = read_full_from-Agrees n input b h
