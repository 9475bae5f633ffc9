-- ===== src/Kcp/Sending/Order.antt =====
-- The sending worker keeps its packets in order, and an acknowledged packet is gone for good.
use xray_core_python.Prelude.{
  ℕ, ◌-◌, ◌≤◌, ◌<◌, ◌≡◌, refl, sym, ap, ◌∙◌, Bool, true, false, List, [], ◌∷◌, ◌||◌, ltb,
  if◌then◌else◌, sub32, IsU32, arith, Bool-cases, inl, inr,
}
use xray_core_python.Kcp.Segment.{DataSegment}
use xray_core_python.Kcp.Sending.{SendingWindow, remove}
use xray_core_python.Kcp.Sending.Window.{
  numbers, IsAscending, contains, without, IsAscending-without, remove-without, contains_bounds,
  without_none,
}
use xray_core_python.Kcp.Sending.Worker.{
  SendingWorker, first_or, find_first_unacknowledged, process_ack,
}

-- The packets' numbers increase from the first unacknowledged one up to the next to be given, and
-- fewer than 2 ^ 31 numbers are open.
pub record IsOrdered (w : SendingWorker) : Type 0 where
  pub ascending : IsAscending w.first_unacknowledged w.next_number (numbers w.window.cache)
  pub next_word : IsU32 w.next_number
  pub narrow : w.next_number - w.first_unacknowledged < 0x7FFFFFFF

first_or-IsAscending :
    (lo next : ℕ) (l : List DataSegment)
    → IsAscending lo next (numbers l)
    → IsAscending (first_or next l) next (numbers l) × (lo ≤ first_or next l)
first_or-IsAscending lo next [] a = omega arith
first_or-IsAscending lo next (s ∷ l) a = ((omega arith, a.1, a.2), a.0)

-- `FindFirstUnacknowledged` moves the first number up to the packets there are.
pub find_first_unacknowledged-IsOrdered :
    (w : SendingWorker)
    → IsOrdered w
    → IsOrdered (find_first_unacknowledged w)
      × (w.first_unacknowledged ≤ (find_first_unacknowledged w).first_unacknowledged)
unfolding find_first_unacknowledged
find_first_unacknowledged-IsOrdered w o =
    let (a, up) =
      first_or-IsAscending w.first_unacknowledged w.next_number w.window.cache o.ascending in
    (record { ascending = a; next_word = o.next_word; narrow = omega (arith, up, o.narrow) }, up)

-- Another window under the same numbers, or fewer.
pub with_window-IsOrdered :
    (w : SendingWorker) (sw : SendingWindow)
    → IsAscending w.first_unacknowledged w.next_number (numbers sw.cache)
    → IsOrdered w
    → IsOrdered (record w { window = sw })
with_window-IsOrdered w sw a o = record {
  ascending = a;
  next_word = o.next_word;
  narrow = o.narrow;
}

-- The guard of `processAck` turns away only numbers that the window does not hold.
abbrev is_outside : ℕ → SendingWorker → Bool
is_outside n w =
    ltb 0x7FFFFFFF (sub32 n w.first_unacknowledged) || ltb (sub32 n w.next_number) 0x7FFFFFFF

outside-contains :
    (n : ℕ) (w : SendingWorker)
    → IsU32 n
    → IsOrdered w
    → is_outside n w ≡ true
    → contains n (numbers w.window.cache) ≡ false
outside-contains n w h o e = elim (Bool-cases (contains n (numbers w.window.cache))) [
  | inl here ↦ ground (
    arith,
    contains_bounds w.first_unacknowledged w.next_number n (numbers w.window.cache) o.ascending
        here,
  )
  | inr away ↦ away
]

process_ack_outside :
    (n : ℕ) (w : SendingWorker) → is_outside n w ≡ true → process_ack n w ≡ (w, false)
unfolding process_ack
process_ack_outside n w e = rw e

process_ack_inside :
    (n : ℕ) (w : SendingWorker)
    → is_outside n w ≡ false
    → process_ack n w ≡ (
      (if (remove n w.window).1
          then find_first_unacknowledged (record w { window = (remove n w.window).0 })
          else record w { window = (remove n w.window).0 }),
      (remove n w.window).1,
    )
unfolding process_ack
process_ack_inside n w e = rw e

pub find_first_unacknowledged-window :
    (w : SendingWorker)
    → ((find_first_unacknowledged w).window ≡ w.window)
      × ((find_first_unacknowledged w).next_number ≡ w.next_number)
unfolding find_first_unacknowledged
find_first_unacknowledged-window w = (refl, refl)

-- In a worker with an ordered window, an acknowledgement for one packet, whose number is a word,
-- takes that packet out, where it is in the window, and else changes no packet; the answer says
-- which. The numbers given out stay, and the window stays ordered.
pub process_ack-without :
    (n : ℕ) (w : SendingWorker)
    → IsU32 n
    → IsOrdered w
    → let (w', removed) = process_ack n w in
      (removed ≡ contains n (numbers w.window.cache))
      × (numbers w'.window.cache ≡ without n (numbers w.window.cache))
      × (w'.next_number ≡ w.next_number)
      × IsOrdered w'
process_ack-without n w h o = elim (Bool-cases (is_outside n w)) [
  | inl out ↦
      let away = outside-contains n w h o out in
      rw (process_ack_outside n w out, away)
        (refl, sym (without_none n (numbers w.window.cache) away), refl, o)
  | inr inside ↦
      let taken = remove-without n w.first_unacknowledged w.next_number w.window o.ascending in
      let w' = record w { window = (remove n w.window).0 } in
      let o' : IsOrdered w' =
        with_window-IsOrdered w (remove n w.window).0
          (rw taken.1 (
            IsAscending-without w.first_unacknowledged w.next_number n (numbers w.window.cache)
              o.ascending))
          o in
      let found = find_first_unacknowledged-window w' in
      elim (Bool-cases (remove n w.window).1) [
        | inl yes_removed ↦
            rw (process_ack_inside n w inside, yes_removed)
              (
                sym yes_removed ∙ taken.0,
                ap (λ (sw : SendingWindow). numbers sw.cache) found.0 ∙ taken.1,
                found.1,
                (find_first_unacknowledged-IsOrdered w' o').0,
              )
        | inr not_removed ↦
            rw (process_ack_inside n w inside, not_removed)
              (sym not_removed ∙ taken.0, taken.1, refl, o')
      ]
]
