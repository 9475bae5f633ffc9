-- ===== src/Kcp/Sending/Flushed.antt =====
-- What a flush of the sending worker sends and keeps.
use xray_core_python.Prelude.{
  ℕ, zero, suc, ◌≡◌, ◌⊎◌, refl, ap, ap₂, ◌∙◌, max, Bool, true, false, Option, none, some, List, [],
  ◌∷◌, ◌++◌, map, if◌then◌else◌, take, IsU32, arith,
}
use xray_core_python.Kcp.Config.{Config}
use xray_core_python.Kcp.Segment.{DataSegment}
use xray_core_python.Kcp.Sending.{SendingWindow, write, flush_window}
use xray_core_python.Kcp.Sending.Window.{numbers, contains}
use xray_core_python.Kcp.Sending.Transmit.{expired, stamped, flush_window-expired}
use xray_core_python.Kcp.Sending.Worker.{
  SendingWorker, send_quota, on_packet_loss, after_flush, flush,
}

pub contains-append :
    (n : ℕ) (xs ys : List ℕ)
    → contains n (xs ++ ys) ≡ (if contains n xs then true else contains n ys)
contains-append n [] ys = refl
contains-append n (x ∷ xs) ys = ground (arith, contains-append n xs ys)

contains-take :
    (n k : ℕ) (l : List DataSegment)
    → contains n (numbers l) ≡ false
    → contains n (numbers (take k l)) ≡ false
contains-take n zero l e = refl
contains-take n (suc k) [] e = refl
contains-take n (suc k) (s ∷ l) e = ground (arith, contains-take n k l)

module _ (current rto quota : ℕ) (fill_in : DataSegment → DataSegment) where
  contains-expired :
      (n : ℕ) (l : List DataSegment)
      → contains n (numbers l) ≡ false
      → contains n (numbers (expired current rto quota fill_in l)) ≡ false
  contains-expired n [] e = refl
  contains-expired n (s ∷ l) e = ground (arith, contains-expired n l)

  numbers-stamped :
      ((seg : DataSegment) → (fill_in seg).number ≡ seg.number)
      → (l : List DataSegment) → numbers (map (stamped current rto quota fill_in) l) ≡ numbers l
  numbers-stamped h [] = refl
  numbers-stamped h (s ∷ l) = ap₂ ◌∷◌ (h _) (numbers-stamped h l)

  -- A flush sends packets of the window alone.
  pub contains-flush_window :
      (n : ℕ) (sw : SendingWindow)
      → IsU32 quota
      → ((seg : DataSegment) → (fill_in seg).number ≡ seg.number)
      → contains n (numbers sw.cache) ≡ false
      → contains n (numbers (flush_window current rto quota fill_in sw).1) ≡ false
  contains-flush_window n sw q h e =
      let whole = flush_window-expired current rto quota fill_in sw q h in
      let sent = take (max 1 quota) (expired current rto quota fill_in sw.cache) in
      ap (λ l. contains n (numbers l)) whole.0
      ∙ ap (contains n) (numbers-stamped h sent)
      ∙ contains-take n (max 1 quota) _ (contains-expired n sw.cache e)

-- What a flush leaves alone: the numbers.
on_packet_loss-window :
    (config : Config) (timeout rate : ℕ) (w : SendingWorker)
    → ((on_packet_loss config timeout rate w).window ≡ w.window)
      × ((on_packet_loss config timeout rate w).next_number ≡ w.next_number)
      × ((on_packet_loss config timeout rate w).first_unacknowledged ≡ w.first_unacknowledged)
unfolding on_packet_loss
on_packet_loss-window config timeout rate w = ground arith

pub send_quota-IsU32 : (config : Config) (w : SendingWorker) → IsU32 (send_quota config w)
unfolding send_quota
send_quota-IsU32 config w = omega arith

pub write-number :
    (conversation first : ℕ) (closing : Bool) (seg : DataSegment)
    → (write conversation closing first seg).number ≡ seg.number
unfolding write
write-number conversation first closing seg = refl

pub after_flush_lem :
    (config : Config) (timeout : ℕ) (window : SendingWindow) (loss : Option ℕ) (w : SendingWorker)
    → let w' = after_flush config timeout window loss w in
      (w'.window ≡ window)
      × (w'.next_number ≡ w.next_number)
      × (w'.first_unacknowledged ≡ w.first_unacknowledged)
unfolding after_flush
after_flush_lem config timeout window none w = (refl, refl, refl)
after_flush_lem config timeout window (some rate) w =
    on_packet_loss-window config timeout rate (record w { window = window })

module _ (conversation : ℕ) (closing : Bool) (config : Config) (timeout current : ℕ)
    (w : SendingWorker) where
  abbrev pub result : SendingWorker × List DataSegment × Bool
  result = flush conversation closing config timeout current w

  abbrev pub sent : SendingWindow × List DataSegment × Option ℕ
  sent =
      flush_window current timeout (send_quota config w)
        (write conversation closing w.first_unacknowledged) w.window

  pub flush_cases :
      ((result.0.window ≡ w.window)
        × (result.0.next_number ≡ w.next_number)
        × (result.0.first_unacknowledged ≡ w.first_unacknowledged)
        × (result.1 ≡ []))
      ⊎ ((result.0 ≡ after_flush config timeout sent.0 sent.2 w) × (result.1 ≡ sent.1))
  unfolding flush
  flush_cases = ground arith
