-- ===== src/Buf/Multi/Content.antt =====
-- The bytes of a list of buffers, and what `Compact` and `Copy` do with them.
use xray_core_python.Prelude.{
  ℕ, zero, suc, ◌-◌, ◌≤◌, ◌≡◌, ◌⊎◌, refl, sym, ap, ◌∙◌, min, Bool, true, false, Option, none, some,
  List, [], ◌∷◌, ◌++◌, append_assoc, ltb, if◌then◌else◌, length, take, length-take, take-all, All,
  arith, Bool-cases, inl, inr,
}
use xray_core_python.Buf.{Buffer, len, available, is_empty, bytes, write}
use xray_core_python.Buf.Slices.{IsValid, length-bytes}
use xray_core_python.Buf.Promise.{Queue}
use xray_core_python.Buf.Steps.{append-view}
use xray_core_python.Buf.Multi.{copy, read_from_buffer, compact_loop, compact}

abbrev pub multi_bytes : List Buffer → List ℕ
multi_bytes [] = []
multi_bytes (b ∷ mb) = bytes b ++ multi_bytes mb

-- A write puts the bytes that fit behind the content.
pub bytes-write :
    (bs : List ℕ) (b : Buffer)
    → IsValid b
    → IsValid (write bs b).0
      × (bytes (write bs b).0 ≡ bytes b ++ take (min (available b) (length bs)) bs)
unfolding write
bytes-write bs b h =
    let n = min (available b) (length bs) in
    let (valid, same) =
      append-view n (take n bs) b h (omega (arith, length-take n bs)) (omega (arith, h.inside)) in
    (valid, ap (λ (q : Queue). q.content) same)

compact_apart :
    (last curr : Buffer) (mb rest : List Buffer)
    → ltb (available last) (len curr) ≡ true
    → compact_loop curr mb ≡ some rest
    → compact_loop last (curr ∷ mb) ≡ some (last ∷ rest)
unfolding compact_loop
compact_apart last curr mb rest f e = rw (f, e) refl

compact_together :
    (last curr : Buffer) (mb : List Buffer)
    → ltb (available last) (len curr) ≡ false
    → is_empty curr ≡ false
    → compact_loop last (curr ∷ mb) ≡ compact_loop (write (bytes curr) last).0 mb
unfolding compact_loop read_from_buffer
compact_together last curr mb f e = rw (f, e) refl

-- A list of buffers that stands for some bytes.
record Holds (bs : List ℕ) (before : ℕ) (o : Option (List Buffer)) : Type 0 where
  result : List Buffer
  result_eq : o ≡ some result
  same : multi_bytes result ≡ bs
  shorter : length result ≤ before

compact_loop-Holds :
    (last : Buffer) (mb : List Buffer)
    → IsValid last
    → All (λ b. IsValid b × (is_empty b ≡ false)) mb
    → Holds (bytes last ++ multi_bytes mb) (suc (length mb)) (compact_loop last mb)
compact_loop-Holds last [] h hs = record {
  result = last ∷ [];
  result_eq = unfold compact_loop in refl;
  same = refl;
  shorter = omega arith;
}
compact_loop-Holds last (curr ∷ mb) h hs = elim (Bool-cases (ltb (available last) (len curr))) [
  | inl f ↦
      let r = compact_loop-Holds curr mb hs.0.0 hs.1 in
      record {
        result = last ∷ r.result;
        result_eq = compact_apart last curr mb r.result f r.result_eq;
        same = ap (λ t. bytes last ++ t) r.same;
        shorter = omega (arith, r.shorter);
      }
  | inr f ↦
      let merged = (write (bytes curr) last).0 in
      let (valid, w) = bytes-write (bytes curr) last h in
      let all : take (min (available last) (length (bytes curr))) (bytes curr) ≡ bytes curr =
        take-all _ (bytes curr) (ground (arith, length-bytes curr hs.0.0)) in
      let r = compact_loop-Holds merged mb valid hs.1 in
      record {
        result = r.result;
        result_eq = compact_together last curr mb f hs.0.1 ∙ r.result_eq;
        same =
            r.same
            ∙ ap (λ t. t ++ multi_bytes mb) (w ∙ ap (λ t. bytes last ++ t) all)
            ∙ append_assoc (bytes last) (bytes curr) (multi_bytes mb);
        shorter = omega (arith, r.shorter);
      }
]

abbrev pub any_empty : List Buffer → Bool
any_empty [] = false
any_empty (b ∷ mb) = if is_empty b then true else any_empty mb

compact_loop_panic :
    (last : Buffer) (mb : List Buffer) → any_empty mb ≡ true → compact_loop last mb ≡ none
unfolding compact_loop read_from_buffer
compact_loop_panic last [] e = absurd (ground arith)
compact_loop_panic last (curr ∷ mb) e = elim (Bool-cases (is_empty curr)) [
  | inl z ↦ let f : ltb (available last) (len curr) ≡ false = ground arith in rw (f, z) refl
  | inr z ↦
      let e' : any_empty mb ≡ true = ground arith in
      elim (Bool-cases (ltb (available last) (len curr))) [
        | inl f ↦ rw (f, compact_loop_panic curr mb e') refl
        | inr f ↦ rw (f, z) (compact_loop_panic (write (bytes curr) last).0 mb e')
      ]
]

not_empty :
    (mb : List Buffer)
    → All IsValid mb
    → any_empty mb ≡ false
    → All (λ b. IsValid b × (is_empty b ≡ false)) mb
not_empty [] h e = tt
not_empty (b ∷ mb) h e = elim (Bool-cases (is_empty b)) [
  | inl z ↦ absurd (ground arith)
  | inr z ↦ ((h.0, z), not_empty mb h.1 (ground arith))
]

-- `Compact` of valid buffers keeps their bytes, in order, in no more buffers; it panics exactly
-- where a buffer behind the first is empty.
pub compact-multi_bytes :
    (b : Buffer) (mb : List Buffer)
    → IsValid b
    → All IsValid mb
    → (any_empty mb ≡ true) × (compact (b ∷ mb) ≡ none)
      ⊎ (any_empty mb ≡ false)
        × ((result : List Buffer) × (compact (b ∷ mb) ≡ some result)
            × (multi_bytes result ≡ multi_bytes (b ∷ mb))
            × (length result ≤ length (b ∷ mb)))
unfolding compact
compact-multi_bytes b mb h hs = elim (Bool-cases (any_empty mb)) [
  | inl e ↦ inl (e, compact_loop_panic b mb e)
  | inr e ↦
      let r = compact_loop-Holds b mb h (not_empty mb hs e) in
      inr (e, (r.result, r.result_eq, r.same, r.shorter))
]

-- What `Copy` puts into a slice is the beginning of the content.
pub copy-take :
    (space : ℕ) (mb : List Buffer) → All IsValid mb → copy space mb ≡ take space (multi_bytes mb)
unfolding copy
copy-take space [] h = sym (take-all space [] (omega arith))
copy-take space (b ∷ mb) h = elim (Bool-cases (ltb space (len b))) [
  | inl f ↦ rw f (take_front space (bytes b) (multi_bytes mb) (ground (arith, length-bytes b h.0)))
  | inr f ↦ rw f (
      ap (λ t. bytes b ++ t) (copy-take (space - len b) mb h.1)
      ∙ sym (
          take_behind space (len b) (bytes b) (multi_bytes mb) (length-bytes b h.0) (ground arith)))
]
  where
    take_front : (n : ℕ) (xs ys : List ℕ) → n ≤ length xs → take n xs ≡ take n (xs ++ ys)
    take_front zero xs ys l = refl
    take_front (suc n) [] ys l = absurd (omega arith)
    take_front (suc n) (x ∷ xs) ys l = ap (λ t. x ∷ t) (take_front n xs ys (omega arith))

    take_behind :
        (n m : ℕ) (xs ys : List ℕ)
        → length xs ≡ m
        → m ≤ n
        → take n (xs ++ ys) ≡ xs ++ take (n - m) ys
    take_behind n m [] ys e l = let k : n - m ≡ n = omega (arith, e) in rw k refl
    take_behind zero m (x ∷ xs) ys e l = absurd (omega arith)
    take_behind (suc n) zero (x ∷ xs) ys e l = absurd (omega arith)
    take_behind (suc n) (suc m) (x ∷ xs) ys e l =
        let k : suc n - suc m ≡ n - m = omega arith in
        rw k (ap (λ t. x ∷ t) (take_behind n m xs ys (omega arith) (omega arith)))
