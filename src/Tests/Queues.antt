-- ===== src/Tests/Queues.antt =====
-- Witnesses of the theorems of UploadQueue.
use xray_core_python.Prelude.{
  ℕ, zero, suc, inl, inr, ◌<◌, ◌+◌, ◌≡◌, refl, Bool, true, false, List, [], ◌∷◌, ◌++◌, take, arith,
}
use xray_core_python.UploadQueue.{
  Packet, UploadQueue, new_upload_queue, Arrival, arrives, got_bytes, read, run,
}
use xray_core_python.UploadQueue.Packets.{packets_of}
use xray_core_python.UploadQueue.Order.{upto}
use xray_core_python.UploadQueue.Bounds.{read_next}
use xray_core_python.UploadQueue.Ready.{Has, incoming}
use xray_core_python.UploadQueue.Complete.{IsComplete, times, run_complete}
use xray_core_python.UploadQueue.Stream.{Numbered, run-upto}

-- A heap that keeps packets of one number in the order in which they came.
abbrev same_order : List Packet → List Packet
same_order h = h

abbrev pairs : ℕ → List ℕ
pairs k = k ∷ (k + 10) ∷ []

abbrev swapped : List Arrival
swapped =
    arrives (record { payload = 1 ∷ 11 ∷ []; seq = 1 })
    ∷ arrives (record { payload = 0 ∷ 10 ∷ []; seq = 0 })
    ∷ []

swapped-Numbered : Numbered pairs (packets_of swapped)
swapped-Numbered = record {
  parts = ((omega arith, refl), ((omega arith, refl), tt));
  numbers = (((λ e. omega (arith, e)), tt), (tt, tt));
}

abbrev some_reads : List (ℕ × Bool)
some_reads = (1, false) ∷ (5, false) ∷ (1, false) ∷ (5, true) ∷ []

run-upto_example :
    let (bytes, q) = run same_order some_reads swapped (new_upload_queue 4) in
    (left : ℕ) × (bytes ≡ upto pairs q.next_seq ++ take left (pairs q.next_seq))
run-upto_example = run-upto pairs same_order (λ h a. refl) 4 some_reads swapped swapped-Numbered

abbrev held : UploadQueue
held = record {
  heap = record { payload = 4 ∷ []; seq = 4 } ∷ record { payload = 5 ∷ 15 ∷ []; seq = 5 } ∷ [];
  next_seq = 5;
  max_packets = 4;
}

read_next_example :
    ((read same_order 1 false swapped held).0 ≡ got_bytes (5 ∷ []))
    × ((read same_order 1 false swapped held).1.0 ≡ swapped)
read_next_example =
    read_next same_order 1 swapped held (record { payload = 4 ∷ []; seq = 4 } ∷ []) []
      (record { payload = 5 ∷ 15 ∷ []; seq = 5 }) refl (omega arith, tt) refl tt

abbrev both : List Packet
both = record { payload = 1 ∷ 11 ∷ []; seq = 1 } ∷ record { payload = 0 ∷ 10 ∷ []; seq = 0 } ∷ []

both-all_numbers : (k : ℕ) → k < 2 → Has k both
both-all_numbers zero h = inr (inl refl)
both-all_numbers (suc zero) h = inl refl
both-all_numbers (suc (suc k)) h = absurd (omega (arith, h))

both-IsComplete : IsComplete pairs 5 2 both
both-IsComplete = record {
  parts = ((omega arith, (refl, omega arith)), ((omega arith, (refl, omega arith)), tt));
  numbers = (((λ e. omega (arith, e)), tt), (tt, tt));
  all_numbers = both-all_numbers;
}

run_complete_example :
    (run same_order (times 5 2) (incoming both) (new_upload_queue 4)).0 ≡ 0 ∷ 10 ∷ 1 ∷ 11 ∷ []
run_complete_example =
    run_complete same_order (λ h a. refl) pairs 5 2 4 both both-IsComplete (omega arith)
