-- ===== src/Kcp/Receiving/Delivery.antt =====
-- The reader gets the packets in the order of their numbers, whatever order they arrive in.
use xray_core_python.Prelude.{
  ℕ, zero, suc, ◌+◌, ◌<◌, ◌≡◌, refl, ap₂, none, some, List, [], ◌∷◌, map, ◌==◌, length, flatten,
  u32, All, arith, Bool-cases, Option-cases, inl, inr,
}
use xray_core_python.Kcp.Segment.{DataSegment, payload_bytes}
use xray_core_python.Kcp.Receiving.{
  ReceivingWindow, ReceivingWorker, find, delete, set, remove, collect, read_multi_buffer,
}
use xray_core_python.Kcp.Receiving.Window.{length-delete_lt}

-- The number `k` packets after `n`, and the numbers in between.
abbrev pub advance : ℕ → ℕ → ℕ
advance n zero = n
advance n (suc k) = advance (u32 (n + 1)) k

abbrev pub numbers_from : ℕ → ℕ → List ℕ
numbers_from n zero = []
numbers_from n (suc k) = n ∷ numbers_from (u32 (n + 1)) k

-- The worker after one round of the loop.
abbrev pub taken : ReceivingWorker → ReceivingWorker
taken w = record w {
  window = record { cache = delete w.next_number w.window.cache };
  next_number = u32 (w.next_number + 1);
}

pub collect-none :
    (fuel : ℕ) (w : ReceivingWorker)
    → find w.next_number w.window.cache ≡ none
    → collect (suc fuel) w ≡ (w, [])
unfolding collect remove
collect-none fuel w e = ground arith

pub collect-some :
    (fuel : ℕ) (w : ReceivingWorker) (v : DataSegment)
    → find w.next_number w.window.cache ≡ some v
    → collect (suc fuel) w
      ≡ ((collect fuel (taken w)).0, payload_bytes v ∷ (collect fuel (taken w)).1)
unfolding collect remove
collect-some fuel w v e = ground arith

pub read_multi_buffer_fresh :
    (w : ReceivingWorker)
    → w.left_over ≡ none
    → read_multi_buffer w ≡ collect (suc (length w.window.cache)) w
unfolding read_multi_buffer
read_multi_buffer_fresh w e = ground (arith)

pub read_multi_buffer_left_over :
    (w : ReceivingWorker) (mb : List (List ℕ))
    → w.left_over ≡ some mb
    → read_multi_buffer w ≡ (record w { left_over = none }, mb)
unfolding read_multi_buffer
read_multi_buffer_left_over w mb e = ground (arith)

module _ (stream : ℕ → List ℕ) where
  -- Every packet in the window holds what the sender's stream has under its number.
  abbrev pub AreGenuine : List (ℕ × DataSegment) → Type 0
  AreGenuine m = All (λ (e : ℕ × DataSegment). payload_bytes e.1 ≡ stream e.0) m

  -- The sender's bytes of `k` packets from number `n` on.
  abbrev pub bytes_from : ℕ → ℕ → List ℕ
  bytes_from n k = flatten (map stream (numbers_from n k))

  find-AreGenuine :
      (id : ℕ) (m : List (ℕ × DataSegment)) {v : DataSegment}
      → AreGenuine m
      → find id m ≡ some v
      → payload_bytes v ≡ stream id
  find-AreGenuine id [] g e = cc
  find-AreGenuine id ((k, x) ∷ m) {v = v} g e = elim (Bool-cases (k == id)) [
    | inl same ↦
        let k-eq : k ≡ id = ground arith in
        let x-eq : x ≡ v = ground arith in rw (← x-eq, ← k-eq) g.0
    | inr other ↦ find-AreGenuine id m {v = v} g.1 (ground arith)
  ]

  delete-AreGenuine :
      (id : ℕ) (m : List (ℕ × DataSegment)) → AreGenuine m → AreGenuine (delete id m)
  delete-AreGenuine id [] g = tt
  delete-AreGenuine id ((k, x) ∷ m) g = elim (Bool-cases (k == id)) [
    | inl same ↦ rw same (delete-AreGenuine id m g.1)
    | inr other ↦ rw other (g.0, delete-AreGenuine id m g.1)
  ]

  pub set-AreGenuine :
      (id : ℕ) (seg : DataSegment) (w : ReceivingWindow)
      → payload_bytes seg ≡ stream id
      → AreGenuine w.cache
      → AreGenuine (set id seg w).0.cache
  unfolding set
  set-AreGenuine id seg w h g = elim (Option-cases (find id w.cache)) [
    | inl e ↦ rw (e, set) (h, g)
    | inr (v, e) ↦ rw (e, set) g
  ]

  -- What a read of whole packets does: `k` of them, in order, and nothing ready is left.
  pub record Collected (w w' : ReceivingWorker) (mb : List (List ℕ)) : Type 0 where
    pub count : ℕ
    pub data_eq : mb ≡ map stream (numbers_from w.next_number count)
    pub next_eq : w'.next_number ≡ advance w.next_number count
    pub genuine : AreGenuine w'.window.cache
    pub left_over_eq : w'.left_over ≡ w.left_over
    pub rest_missing : find w'.next_number w'.window.cache ≡ none

  collect-Collected :
      (fuel : ℕ) (w : ReceivingWorker)
      → length w.window.cache < fuel
      → AreGenuine w.window.cache
      → Collected w (collect fuel w).0 (collect fuel w).1
  collect-Collected zero w h g = elim h [ ]
  collect-Collected (suc fuel) w h g = elim (Option-cases (find w.next_number w.window.cache)) [
    | inl e ↦ rw (collect-none fuel w e) (record {
      count = 0;
      data_eq = refl;
      next_eq = refl;
      genuine = g;
      left_over_eq = refl;
      rest_missing = e;
    })
    | inr (v, e) ↦
        let ih =
          collect-Collected fuel (taken w)
            (omega (arith, length-delete_lt w.next_number w.window.cache {v = v} e))
            (delete-AreGenuine w.next_number w.window.cache g) in
        rw (collect-some fuel w v e) (record {
          count = suc ih.count;
          data_eq = ap₂ ◌∷◌ (find-AreGenuine w.next_number w.window.cache {v = v} g e) ih.data_eq;
          next_eq = ih.next_eq;
          genuine = ih.genuine;
          left_over_eq = ih.left_over_eq;
          rest_missing = ih.rest_missing;
        })
  ]

  -- With nothing left over, and with a window whose packets hold the sender's bytes, a read takes
  -- every packet that is ready, each once and in the order of its number, and stops at the first
  -- number that is missing.
  pub read_multi_buffer-Collected :
      (w : ReceivingWorker)
      → w.left_over ≡ none
      → AreGenuine w.window.cache
      → Collected w (read_multi_buffer w).0 (read_multi_buffer w).1
  read_multi_buffer-Collected w e g =
      rw (read_multi_buffer_fresh w e)
        (collect-Collected (suc (length w.window.cache)) w (omega arith) g)
