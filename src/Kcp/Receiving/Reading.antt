-- ===== src/Kcp/Receiving/Reading.antt =====
-- The bytes that one read hands over and puts aside.
use xray_core_python.Prelude.{
  ℕ, ◌-◌, ◌≤◌, ◌<◌, ◌≡◌, ◌⊎◌, refl, sym, ap, ap₂, ◌∙◌, true, Option, none, some, List, [], ◌∷◌,
  ◌++◌, leb, length, take, drop, take-append-drop, length-take, flatten, append_assoc, append-nil,
  arith, Bool-cases, Option-cases, inl, inr, leb→le, sub32, length-append,
}
use xray_core_python.Kcp.Segment.{DataSegment, payload_bytes}
use xray_core_python.Kcp.Receiving.{
  ReceivingWorker, read_multi_buffer, process_segment, split_bytes, all_empty, read,
}
use xray_core_python.Kcp.Receiving.Delivery.{
  advance, AreGenuine, bytes_from, set-AreGenuine, read_multi_buffer-Collected,
  read_multi_buffer_left_over,
}

all_empty→flatten : (mb : List (List ℕ)) → all_empty mb ≡ true → flatten mb ≡ []
all_empty→flatten [] e = refl
all_empty→flatten ([] ∷ mb) e = all_empty→flatten mb e
all_empty→flatten ((x ∷ b) ∷ mb) e = cc

-- The bytes copied and the bytes left are the bytes given, in order; as many are copied as fit,
-- and bytes are left only behind a full slice.
pub split_bytes-flatten :
    (room : ℕ) (mb : List (List ℕ))
    → let (rest, bytes) = split_bytes room mb in
      (bytes ++ flatten rest ≡ flatten mb)
      × (length bytes ≤ room)
      × ((length bytes ≡ room) ⊎ (flatten rest ≡ []))
unfolding split_bytes
split_bytes-flatten room [] = (refl, omega arith, inr refl)
split_bytes-flatten room (b ∷ mb) = elim (Bool-cases (leb (length b) room)) [
  | inl whole ↦
      let (rest, more) = split_bytes (room - length b) mb in
      let ih = split_bytes-flatten (room - length b) mb in
      let fits = leb→le (length b) room whole in
      rw whole (
        append_assoc b more (flatten rest) ∙ ap (λ t. b ++ t) ih.0,
        omega (arith, length-append b more, ih.1, fits),
        elim ih.2 [ inl e ↦ inl (omega (arith, length-append b more, fits, e)) | inr e ↦ inr e ],
      )
  | inr part ↦
      let big : room < length b = ground arith in
      rw part (
        sym (append_assoc (take room b) (drop room b) (flatten mb))
            ∙ ap (λ t. t ++ flatten mb) (take-append-drop room b),
        omega (arith, length-take room b),
        inl (omega (arith, length-take room b, big)),
      )
]

-- The bytes put aside by the last `Read`.
abbrev pub left : ReceivingWorker → List ℕ
left w = elim w.left_over [ none ↦ [] | some mb ↦ flatten mb ]

left_eq :
    (w : ReceivingWorker) {o : Option (List (List ℕ))}
    → w.left_over ≡ o
    → left w ≡ elim o [ none ↦ [] | some mb ↦ flatten mb ]
left_eq w e = ap (λ (o : Option (List (List ℕ))). elim o [ none ↦ [] | some mb ↦ flatten mb ]) e

module _ (stream : ℕ → List ℕ) where
  -- The bytes got and put aside are those put aside before, and then `count` packets in order.
  pub record Progress (w w' : ReceivingWorker) (bytes : List ℕ) : Type 0 where
    pub count : ℕ
    pub bytes_eq : bytes ++ left w' ≡ left w ++ bytes_from stream w.next_number count
    pub next_eq : w'.next_number ≡ advance w.next_number count
    pub genuine : AreGenuine stream w'.window.cache

  pub still :
      (w w' : ReceivingWorker)
      → w'.left_over ≡ w.left_over
      → w'.next_number ≡ w.next_number
      → AreGenuine stream w'.window.cache
      → Progress w w' []
  still w w' l n g = record {
    count = 0;
    bytes_eq = left_eq w' l ∙ sym (append-nil (left w));
    next_eq = n;
    genuine = g;
  }

  pub process_segment-Progress :
      (seg : DataSegment) (w : ReceivingWorker)
      → payload_bytes seg ≡ stream seg.number
      → AreGenuine stream w.window.cache
      → Progress w (process_segment seg w) []
  unfolding process_segment
  process_segment-Progress seg w h g =
      elim (Bool-cases (leb w.window_size (sub32 seg.number w.next_number))) [
        | inl out ↦ rw out (still w w refl refl g)
        | inr inside ↦
            rw inside (still w _ refl refl (set-AreGenuine stream seg.number seg w.window h g))
      ]

  pub read_multi_buffer-Progress :
      (w : ReceivingWorker)
      → AreGenuine stream w.window.cache
      → Progress w (read_multi_buffer w).0 (flatten (read_multi_buffer w).1)
        × (left (read_multi_buffer w).0 ≡ [])
  read_multi_buffer-Progress w g = elim (Option-cases w.left_over) [
    | inl e ↦
        let c = read_multi_buffer-Collected stream w e g in
        let w' = (read_multi_buffer w).0 in
        let bytes = bytes_from stream w.next_number c.count in
        let nothing : left w' ≡ [] = left_eq w' (c.left_over_eq ∙ e) in
        (
          record {
            count = c.count;
            bytes_eq =
                ap₂ ◌++◌ (ap flatten c.data_eq) nothing
                ∙ append-nil bytes
                ∙ ap (λ t. t ++ bytes) (sym (left_eq w e));
            next_eq = c.next_eq;
            genuine = c.genuine;
          },
          nothing,
        )
    | inr (mb, e) ↦ rw (read_multi_buffer_left_over w mb e) (
      record {
        count = 0;
        bytes_eq = ap (λ t. t ++ []) (sym (left_eq w e));
        next_eq = refl;
        genuine = g;
      },
      refl,
    )
  ]

  -- The three ways out of `Read`, given what was read.
  pub read-Progress :
      (room : ℕ) (w : ReceivingWorker)
      → AreGenuine stream w.window.cache
      → Progress w (read room w).0 (read room w).1
  unfolding read
  read-Progress room w g =
      let (w', mb) = read_multi_buffer w in
      let (p, nothing) = read_multi_buffer-Progress w g in
      let (rest, bytes) = split_bytes room mb in
      let whole = (split_bytes-flatten room mb).0 in
      let same : flatten mb ≡ left w ++ bytes_from stream w.next_number p.count =
        sym (append-nil (flatten mb)) ∙ ap (λ t. flatten mb ++ t) (sym nothing) ∙ p.bytes_eq in
      elim (Bool-cases (all_empty mb)) [
        | inl e ↦ rw e (record {
          count = p.count;
          bytes_eq = nothing ∙ sym (all_empty→flatten mb e) ∙ same;
          next_eq = p.next_eq;
          genuine = p.genuine;
        })
        | inr e ↦ elim (Bool-cases (all_empty rest)) [
          | inl done ↦
              rw (e, done)
                (record {
                  count = p.count;
                  bytes_eq =
                      ap (λ t. bytes ++ t) (nothing ∙ sym (all_empty→flatten rest done))
                      ∙ whole
                      ∙ same;
                  next_eq = p.next_eq;
                  genuine = p.genuine;
                })
          | inr more ↦
              rw (e, more)
                (record {
                  count = p.count;
                  bytes_eq = whole ∙ same;
                  next_eq = p.next_eq;
                  genuine = p.genuine;
                })
        ]
      ]
