-- ===== src/Kcp/AckList/Flush.antt =====
-- What `AckList.Flush` writes: every number that is due, in segments of bounded size.
use xray_core_python.Prelude.{
  ℕ, zero, suc, ◌-◌, ◌≤◌, ◌<◌, ◌≡◌, refl, sym, ap, ap₂, ◌∙◌, min, max, List, [], ◌∷◌, ◌++◌, map,
  append_assoc, append-nil, ltb, if◌then◌else◌, length, take, flatten, flatten-append,
  length-append, All, All-append, arith, Bool-cases, inl, inr,
}
use xray_core_python.Kcp.Segment.{AckSegment, new_ack_segment, put_number, put_timestamp, is_full}
use xray_core_python.Kcp.AckList.{
  AckList, Flushing, ack_limit, write_if_full, flush_round, flush_loop, fill, wants_last,
  all_written, flush,
}

-- The numbers whose time has come.
abbrev pub due : ℕ → List ℕ → List ℕ → List ℕ
due current (n ∷ ns) (d ∷ ds) =
    let rest = due current ns ds in if ltb current d then rest else n ∷ rest
due current _ _ = []

-- The numbers that still wait for their time.
abbrev pub waiting : ℕ → List ℕ → List ℕ → List ℕ
waiting current (n ∷ ns) (d ∷ ds) =
    let rest = waiting current ns ds in if ltb current d then n ∷ rest else rest
waiting current _ _ = []

-- How many numbers a segment takes, at an MSS.
abbrev pub capacity : ℕ → ℕ
capacity mss = max 1 (min 128 (ack_limit mss))

abbrev pub sent_numbers : List AckSegment → List ℕ
sent_numbers segs = flatten (map (λ s. s.number_list) segs)

new_ack_segment_lem :
    (mss : ℕ)
    → ((new_ack_segment (ack_limit mss)).limit ≡ capacity mss)
      × ((new_ack_segment (ack_limit mss)).number_list ≡ [])
unfolding new_ack_segment
new_ack_segment_lem mss = ground arith

put_timestamp-number_list :
    (t : ℕ) (s : AckSegment)
    → ((put_timestamp t s).number_list ≡ s.number_list) × ((put_timestamp t s).limit ≡ s.limit)
unfolding put_timestamp
put_timestamp-number_list t s = ground arith

abbrev FitsIn : ℕ → AckSegment → Type 0
FitsIn mss s = length s.number_list ≤ capacity mss

-- Between two rounds the open segment has room, and the written ones are within their limit.
record IsOpen (mss : ℕ) (f : Flushing) : Type 0 where
  limit_eq : f.seg.limit ≡ capacity mss
  room : length f.seg.number_list < capacity mss
  closed : All (FitsIn mss) f.written

abbrev sent : Flushing → List ℕ
sent f = sent_numbers f.written ++ f.seg.number_list

map-append {ℓ κ} :
    {A : Type ℓ} {B : Type κ} (f : A → B) (xs ys : List A) → map f (xs ++ ys) ≡ map f xs ++ map f ys
map-append f [] ys = refl
map-append f (x ∷ xs) ys = ap (λ t. f x ∷ t) (map-append f xs ys)

sent_numbers-append :
    (xs : List AckSegment) (s : AckSegment)
    → sent_numbers (xs ++ (s ∷ [])) ≡ sent_numbers xs ++ s.number_list
sent_numbers-append xs s = rw (
  map-append (λ (s : AckSegment). s.number_list) xs (s ∷ []),
  flatten-append (map (λ (s : AckSegment). s.number_list) xs) (s.number_list ∷ []),
  append-nil s.number_list,
)

write_if_full-sent : (mss : ℕ) (f : Flushing) → sent (write_if_full mss f) ≡ sent f
unfolding write_if_full
write_if_full-sent mss f = elim (Bool-cases (is_full f.seg)) [
  | inl full ↦
      rw (full, (new_ack_segment_lem mss).1, append-nil, sent_numbers-append f.written f.seg)
  | inr open_seg ↦ rw open_seg
]

write_if_full-IsOpen :
    (mss : ℕ) (f : Flushing)
    → f.seg.limit ≡ capacity mss
    → length f.seg.number_list ≤ capacity mss
    → All (FitsIn mss) f.written
    → IsOpen mss (write_if_full mss f)
unfolding write_if_full
write_if_full-IsOpen mss f h k a = elim (Bool-cases (is_full f.seg)) [
  | inl full ↦ rw full (record {
    limit_eq = (new_ack_segment_lem mss).0;
    room = rw ((new_ack_segment_lem mss).1) (omega arith);
    closed = All-append (FitsIn mss) f.written (f.seg ∷ []) a (k, tt);
  })
  | inr open_seg ↦ rw open_seg (record { limit_eq = h; room = ground arith; closed = a })
]

-- The round of a number that is due: it goes into the open segment.
abbrev filled : ℕ → ℕ → Flushing → Flushing
filled number timestamp f = record f { seg = put_timestamp timestamp (put_number number f.seg) }

filled-sent : (n t : ℕ) (f : Flushing) → sent (filled n t f) ≡ sent f ++ (n ∷ [])
unfolding put_number
filled-sent n t f =
    rw ((put_timestamp-number_list t (put_number n f.seg)).0)
      (sym (append_assoc (sent_numbers f.written) f.seg.number_list (n ∷ [])))

filled-IsOpen :
    (mss n t : ℕ) (f : Flushing) → IsOpen mss f → IsOpen mss (write_if_full mss (filled n t f))
unfolding put_number
filled-IsOpen mss n t f o =
    write_if_full-IsOpen mss (filled n t f)
      ((put_timestamp-number_list t (put_number n f.seg)).1 ∙ o.limit_eq)
      (rw ((put_timestamp-number_list t (put_number n f.seg)).0)
        (omega (arith, length-append f.seg.number_list (n ∷ []), o.room)))
      o.closed

flush_round-IsOpen :
    (mss current rto n t d : ℕ) (f : Flushing)
    → IsOpen mss f
    → IsOpen mss (flush_round mss current rto n t d f).0
unfolding flush_round
flush_round-IsOpen mss current rto n t d f o = elim (Bool-cases (ltb current d)) [
  | inl wait ↦ elim (Bool-cases (ltb (length f.candidates) 128)) [
    | inl room ↦
        rw (wait, room) (record { limit_eq = o.limit_eq; room = o.room; closed = o.closed })
    | inr full ↦ rw (wait, full) o
  ]
  | inr now ↦ rw now (filled-IsOpen mss n t f o)
]

flush_round-sent :
    (mss current rto n t d : ℕ) (f : Flushing) (rest : List ℕ)
    → sent (flush_round mss current rto n t d f).0 ++ rest
      ≡ sent f ++ (if ltb current d then rest else n ∷ rest)
unfolding flush_round
flush_round-sent mss current rto n t d f rest = elim (Bool-cases (ltb current d)) [
  | inl wait ↦ elim (Bool-cases (ltb (length f.candidates) 128)) [
    | inl room ↦ rw (wait, room)
    | inr full ↦ rw (wait, full)
  ]
  | inr now ↦
      rw (now, write_if_full-sent mss (filled n t f), filled-sent n t f)
        (append_assoc (sent f) (n ∷ []) rest)
]

flush_loop-sent :
    (mss current rto : ℕ) (ns ts ds : List ℕ) (f : Flushing)
    → length ts ≡ length ns
    → length ds ≡ length ns
    → IsOpen mss f
    → let f' = (flush_loop mss current rto ns ts ds f).0 in
      IsOpen mss f' × (sent f' ≡ sent f ++ due current ns ds)
unfolding flush_loop
flush_loop-sent mss current rto [] ts ds f ht hd o = (o, sym (append-nil (sent f)))
flush_loop-sent mss current rto (n ∷ ns) [] ds f ht hd o = absurd (omega arith)
flush_loop-sent mss current rto (n ∷ ns) (t ∷ ts) [] f ht hd o = absurd (omega arith)
flush_loop-sent mss current rto (n ∷ ns) (t ∷ ts) (d ∷ ds) f ht hd o =
    let (f', due_again) = flush_round mss current rto n t d f in
    let ih =
      flush_loop-sent mss current rto ns ts ds f' (omega arith) (omega arith)
        (flush_round-IsOpen mss current rto n t d f o) in
    (ih.0, ih.1 ∙ flush_round-sent mss current rto n t d f (due current ns ds))

take-nil : (n : ℕ) → take {A = ℕ} n [] ≡ []
take-nil zero = refl
take-nil (suc n) = refl

write_if_full-candidates :
    (mss : ℕ) (f : Flushing) → (write_if_full mss f).candidates ≡ f.candidates
unfolding write_if_full
write_if_full-candidates mss f = elim (Bool-cases (is_full f.seg)) [
  | inl full ↦ rw full refl
  | inr open_seg ↦ rw open_seg refl
]

-- A round puts a number that waits behind the candidates, up to 128 of them.
flush_round-candidates :
    (mss current rto n t d : ℕ) (f : Flushing) (rest : List ℕ)
    → length f.candidates ≤ 128
    → let more = (flush_round mss current rto n t d f).0.candidates in
      (length more ≤ 128)
      × (more ++ take (128 - length more) rest
          ≡ f.candidates
            ++ take (128 - length f.candidates) (if ltb current d then n ∷ rest else rest))
unfolding flush_round
flush_round-candidates mss current rto n t d f rest h = elim (Bool-cases (ltb current d)) [
  | inl wait ↦ elim (Bool-cases (ltb (length f.candidates) 128)) [
    | inl room ↦
        let longer = length-append f.candidates (n ∷ []) in
        let e : 128 - length f.candidates ≡ suc (128 - length (f.candidates ++ (n ∷ []))) =
          ground (arith, longer) in
        rw (wait, room)
          (
            ground (arith, longer),
            append_assoc f.candidates (n ∷ []) (take (128 - length (f.candidates ++ (n ∷ []))) rest)
                ∙ ap (λ k. f.candidates ++ take k (n ∷ rest)) (sym e),
          )
    | inr full ↦
        let e : 128 - length f.candidates ≡ 0 = ground arith in rw (wait, full, e) (h, refl)
  ]
  | inr now ↦ rw (now, write_if_full-candidates mss (filled n t f)) (h, refl)
]

flush_loop-candidates :
    (mss current rto : ℕ) (ns ts ds : List ℕ) (f : Flushing)
    → length ts ≡ length ns
    → length ds ≡ length ns
    → length f.candidates ≤ 128
    → (flush_loop mss current rto ns ts ds f).0.candidates
      ≡ f.candidates ++ take (128 - length f.candidates) (waiting current ns ds)
unfolding flush_loop
flush_loop-candidates mss current rto [] ts ds f ht hd h =
    rw (take-nil (128 - length f.candidates)) (sym (append-nil f.candidates))
flush_loop-candidates mss current rto (n ∷ ns) [] ds f ht hd h = absurd (omega arith)
flush_loop-candidates mss current rto (n ∷ ns) (t ∷ ts) [] f ht hd h = absurd (omega arith)
flush_loop-candidates mss current rto (n ∷ ns) (t ∷ ts) (d ∷ ds) f ht hd h =
    let (small, same) = flush_round-candidates mss current rto n t d f (waiting current ns ds) h in
    flush_loop-candidates mss current rto ns ts ds (flush_round mss current rto n t d f).0
      (omega arith) (omega arith) small
    ∙ same

-- The candidates fill what room is left.
fill-number_list :
    (ns : List ℕ) (s : AckSegment)
    → length s.number_list ≤ s.limit
    → ((fill ns s).number_list ≡ s.number_list ++ take (s.limit - length s.number_list) ns)
      × (length (fill ns s).number_list ≤ s.limit)
unfolding fill put_number
fill-number_list [] s h = (rw (take-nil (s.limit - length s.number_list), append-nil), h)
fill-number_list (n ∷ ns) s h = elim (Bool-cases (is_full s)) [
  | inl full ↦
      let e : s.limit - length s.number_list ≡ 0 = ground arith in rw full (rw (e, append-nil), h)
  | inr open_seg ↦
      let more = put_number n s in
      let e : s.limit - length s.number_list ≡ suc (s.limit - length more.number_list) =
        ground (arith, length-append s.number_list (n ∷ [])) in
      let ih = fill-number_list ns more (ground (arith, length-append s.number_list (n ∷ []))) in
      rw (open_seg, e) (ih.0 ∙ append_assoc s.number_list (n ∷ []) _, ih.1)
]

sent-all_written :
    (mss : ℕ) (f : Flushing)
    → IsOpen mss f
    → ((k : ℕ) × (sent_numbers (all_written f) ≡ sent f ++ take k f.candidates))
      × All (FitsIn mss) (all_written f)
unfolding all_written wants_last
sent-all_written mss f o =
    let last = fill-number_list f.candidates f.seg (omega (arith, o.limit_eq, o.room)) in
    elim (Bool-cases (wants_last f)) [
      | inl some_last ↦ rw some_last (
        (
          f.seg.limit - length f.seg.number_list,
          sent_numbers-append f.written (fill f.candidates f.seg)
              ∙ rw last.0 (sym (append_assoc (sent_numbers f.written) f.seg.number_list _)),
        ),
        All-append (FitsIn mss) f.written (fill f.candidates f.seg ∷ []) o.closed
            (omega (arith, last.1, o.limit_eq), tt),
      )
      | inr no_last ↦
          let e : f.seg.number_list ≡ [] = ground arith in
          rw no_last ((0, rw (e, append-nil, append-nil)), o.closed)
    ]

-- Where the three slices have one length, a flush writes all numbers that are due, in their order,
-- then a beginning of the first 128 numbers that wait for their time, and nothing else; no segment
-- holds more than fits the MSS or its one-byte count, and the numbers and their timestamps stay.
pub flush-due :
    (current rto : ℕ) (l : AckList)
    → length l.timestamps ≡ length l.numbers
    → length l.next_flush ≡ length l.numbers
    → let (l', segs) = flush current rto l in
      ((k : ℕ) × (sent_numbers segs
          ≡ due current l.numbers l.next_flush
            ++ take k (take 128 (waiting current l.numbers l.next_flush))))
      × All (λ s. length s.number_list ≤ capacity l.mss) segs
      × (l'.numbers ≡ l.numbers)
      × (l'.timestamps ≡ l.timestamps)
unfolding flush
flush-due current rto l ht hd =
    let start : Flushing = record {
      seg = new_ack_segment (ack_limit l.mss);
      written = [];
      candidates = [];
      dirty = l.dirty;
    } in
    let run =
      flush_loop-sent l.mss current rto l.numbers l.timestamps l.next_flush start ht hd (record {
        limit_eq = (new_ack_segment_lem l.mss).0;
        room = rw ((new_ack_segment_lem l.mss).1) (omega arith);
        closed = tt;
      }) in
    let f = (flush_loop l.mss current rto l.numbers l.timestamps l.next_flush start).0 in
    let out = sent-all_written l.mss f run.0 in
    let ride =
      flush_loop-candidates l.mss current rto l.numbers l.timestamps l.next_flush start ht hd
        (omega arith) in
    let begin : sent start ≡ [] = (new_ack_segment_lem l.mss).1 in
    (
      (
        out.0.0,
        out.0.1
            ∙ ap₂ (λ (s c : List ℕ). s ++ take out.0.0 c)
                (run.1 ∙ ap (λ t. t ++ due current l.numbers l.next_flush) begin) ride,
      ),
      out.1,
      refl,
      refl,
    )
