-- ===== src/Buf/Multi/Splitting.antt =====
-- `SplitSize` and the bytes of a list of buffers.
use xray_core_python.Prelude.{
  ℕ, ◌+◌, ◌-◌, ◌≤◌, ◌<◌, ◌≡◌, length-drop, refl, sym, ap, ap₂, ◌∙◌, true, false, some, List, [],
  ◌∷◌, ◌++◌, append_assoc, append-nil, ltb, leb, length, take, drop, take-append, take-append-drop,
  length-take, length-append, All, arith, Bool-cases, ◌⊎◌, inl, inr,
}
use xray_core_python.Buf.{
  Buffer, len, bytes, new_buffer, overwrite, extend, advance, from_start, zeros,
}
use xray_core_python.Buf.Slices.{IsValid, length-bytes, length-overwrite, length-zeros}
use xray_core_python.Buf.Promise.{Queue}
use xray_core_python.Buf.Steps.{drop-view}
use xray_core_python.Buf.Multi.{split_fitting, copy_front, split_size}
use xray_core_python.Buf.Multi.Content.{multi_bytes}

-- What fits is split off before the first buffer that does not.
split_fitting-multi_bytes :
    (space : ℕ) (mb : List Buffer)
    → All IsValid mb
    → (multi_bytes (split_fitting space mb).0 ++ multi_bytes (split_fitting space mb).1
        ≡ multi_bytes mb)
      × (length (multi_bytes (split_fitting space mb).0) ≤ space)
unfolding split_fitting
split_fitting-multi_bytes space [] h = (refl, omega arith)
split_fitting-multi_bytes space (b ∷ mb) h = elim (Bool-cases (ltb space (len b))) [
  | inl f ↦ rw f (refl, omega arith)
  | inr f ↦
      let (same, small) = split_fitting-multi_bytes (space - len b) mb h.1 in
      rw f (
        append_assoc (bytes b) _ _ ∙ ap (λ t. bytes b ++ t) same,
        ground (
          arith,
          length-append (bytes b) (multi_bytes (split_fitting (space - len b) mb).0),
          length-bytes b h.0,
          small,
        ),
      )
]

-- The length of the first buffer.
abbrev pub first_len : List Buffer → ℕ
first_len [] = 0
first_len (b ∷ mb) = len b

split_fitting_full :
    (space : ℕ) (mb : List Buffer)
    → All IsValid mb
    → ((split_fitting space mb).1 ≡ [])
      ⊎ (space
          < length (multi_bytes (split_fitting space mb).0) + first_len (split_fitting space mb).1)
unfolding split_fitting
split_fitting_full space [] h = inl refl
split_fitting_full space (b ∷ mb) h = elim (Bool-cases (ltb space (len b))) [
  | inl f ↦ rw f (inr (ground arith))
  | inr f ↦ rw f (elim (split_fitting_full (space - len b) mb h.1) [
    | inl e ↦ inl e
    | inr l ↦ inr (
        ground (
          arith,
          length-append (bytes b) (multi_bytes (split_fitting (space - len b) mb).0),
          length-bytes b h.0,
          l,
        ))
  ])
]

extend_new :
    (pool : List ℕ) (space : ℕ)
    → space ≤ length pool
    → extend space (new_buffer pool)
      ≡ some (record (new_buffer pool) { v = overwrite 0 (zeros space) pool; stop = space })
unfolding extend
extend_new pool space h =
    let f : ltb (length pool) (0 + space) ≡ false = ground arith in
    let e : 0 + space ≡ space = omega arith in rw (f, e, extend) refl

abbrev front_of : List ℕ → ℕ → Buffer → Buffer
front_of pool space b = record (new_buffer pool) {
  v = overwrite 0 (take space (bytes b)) (overwrite 0 (zeros space) pool);
  stop = space;
}

copy_front_lem :
    (pool : List ℕ) (space : ℕ) (b : Buffer)
    → space ≤ length pool
    → copy_front pool space b ≡ some (front_of pool space b)
unfolding copy_front
copy_front_lem pool space b h = rw (extend_new pool space h, copy_front) refl

front_of-bytes :
    (pool : List ℕ) (space : ℕ) (b : Buffer)
    → space ≤ length (bytes b)
    → bytes (front_of pool space b) ≡ take space (bytes b)
front_of-bytes pool space b l =
    take-append space (take space (bytes b)) _ (omega (arith, length-take space (bytes b)))

split_size_front :
    (pool : List ℕ) (space : ℕ) (b : Buffer) (mb : List Buffer)
    → ltb space (len b) ≡ true
    → space ≤ length pool
    → split_size pool space (b ∷ mb)
      ≡ some (advance (from_start space) b ∷ mb, front_of pool space b ∷ [])
unfolding split_size
split_size_front pool space b mb f h = rw (f, copy_front_lem pool space b h) refl

split_size_whole :
    (pool : List ℕ) (space : ℕ) (b : Buffer) (mb : List Buffer)
    → ltb space (len b) ≡ false
    → split_size pool space (b ∷ mb)
      ≡ some ((split_fitting space (b ∷ mb)).1, (split_fitting space (b ∷ mb)).0)
unfolding split_size
split_size_whole pool space b mb f = rw f refl

advance-bytes :
    (n : ℕ) (b : Buffer)
    → IsValid b
    → b.start + n ≤ b.stop
    → bytes (advance (from_start n) b) ≡ drop n (bytes b)
unfolding advance
advance-bytes n b h l =
    let e : leb (b.start + n) b.stop ≡ true = ground (arith, l) in
    rw e (ap (λ (q : Queue). q.content) (drop-view n b h l).1)

advance-IsValid :
    (n : ℕ) (b : Buffer) → IsValid b → b.start + n ≤ b.stop → IsValid (advance (from_start n) b)
unfolding advance
advance-IsValid n b h l =
    let e : leb (b.start + n) b.stop ≡ true = ground (arith, l) in rw e ((drop-view n b h l).0)

split_fitting-IsValid :
    (space : ℕ) (mb : List Buffer)
    → All IsValid mb
    → All IsValid (split_fitting space mb).0
      × All IsValid (split_fitting space mb).1
      × (length (split_fitting space mb).1 ≤ length mb)
unfolding split_fitting
split_fitting-IsValid space [] h = (tt, tt, omega arith)
split_fitting-IsValid space (b ∷ mb) h = elim (Bool-cases (ltb space (len b))) [
  | inl f ↦ rw f (tt, h, omega arith)
  | inr f ↦
      let (front, rest, less) = split_fitting-IsValid (space - len b) mb h.1 in
      rw f ((h.0, front), rest, omega (arith, less))
]

split_fitting_fewer :
    (space : ℕ) (b : Buffer) (mb : List Buffer)
    → ltb space (len b) ≡ false
    → All IsValid mb
    → length (split_fitting space (b ∷ mb)).1 ≤ length mb
unfolding split_fitting
split_fitting_fewer space b mb f h = rw f ((split_fitting-IsValid (space - len b) mb h).2)

front_of-IsValid :
    (pool : List ℕ) (space : ℕ) (b : Buffer)
    → space ≤ length pool
    → space ≤ length (bytes b)
    → IsValid (front_of pool space b)
front_of-IsValid pool space b h l =
    let zeroed = length-overwrite 0 (zeros space) pool (omega (arith, length-zeros space, h)) in
    let kept =
      length-overwrite 0 (take space (bytes b)) (overwrite 0 (zeros space) pool)
        (omega (arith, zeroed, length-take space (bytes b), h, l)) in
    record { ordered = omega arith; inside = omega (arith, kept, zeroed, h) }

-- The bytes and the buffers that are left to split.
abbrev pub measure : List Buffer → ℕ
measure mb = length (multi_bytes mb) + length mb

pub record SizeSplit (pool : List ℕ) (space : ℕ) (mb : List Buffer) : Type 0 where
  pub rest : List Buffer
  pub front : List Buffer
  pub result : split_size pool space mb ≡ some (rest, front)
  pub same : multi_bytes front ++ multi_bytes rest ≡ multi_bytes mb
  pub small : length (multi_bytes front) ≤ space
  -- A first buffer that is too large is split at the size.
  pub full : (first_len mb ≤ space) ⊎ (length (multi_bytes front) ≡ space)
  -- The first buffer that is left would not fit any more.
  pub maximal : (rest ≡ []) ⊎ (space < length (multi_bytes front) + first_len rest)
  pub rest_valid : All IsValid rest
  pub front_valid : All IsValid front
  pub shrinks : 1 ≤ space → 1 ≤ length mb → measure rest < measure mb

split_size_at_front :
    (pool : List ℕ) (space : ℕ) (b : Buffer) (mb : List Buffer)
    → space ≤ length pool
    → All IsValid (b ∷ mb)
    → ltb space (len b) ≡ true
    → SizeSplit pool space (b ∷ mb)
split_size_at_front pool space b mb h v f =
    let fits : space ≤ length (bytes b) = ground (arith, length-bytes b v.0) in
    let inside : b.start + space ≤ b.stop = ground (arith, v.0.ordered) in
    let shown = append-nil (bytes (front_of pool space b)) ∙ front_of-bytes pool space b fits in
    let behind = advance-bytes space b v.0 inside in
    record {
      rest = advance (from_start space) b ∷ mb;
      front = front_of pool space b ∷ [];
      result = split_size_front pool space b mb f h;
      same =
          ap₂ (λ (s t : List ℕ). s ++ t) shown (ap (λ t. t ++ multi_bytes mb) behind)
          ∙ sym (append_assoc (take space (bytes b)) (drop space (bytes b)) (multi_bytes mb))
          ∙ ap (λ t. t ++ multi_bytes mb) (take-append-drop space (bytes b));
      small = omega (arith, ap length shown, length-take space (bytes b));
      full = inr (omega (arith, ap length shown, length-take space (bytes b), fits));
      maximal = inr (
          ground (
            arith,
            ap length shown,
            length-take space (bytes b),
            fits,
            ap length behind,
            length-drop space (bytes b),
            length-bytes (advance (from_start space) b) (advance-IsValid space b v.0 inside),
            length-bytes b v.0,
          ));
      rest_valid = (advance-IsValid space b v.0 inside, v.1);
      front_valid = (front_of-IsValid pool space b h fits, tt);
      shrinks = λ one some_left. omega (
        arith,
        one,
        fits,
        ap length behind,
        length-drop space (bytes b),
        length-append (bytes b) (multi_bytes mb),
        length-append (bytes (advance (from_start space) b)) (multi_bytes mb),
      );
    }

pub split_size-SizeSplit :
    (pool : List ℕ) (space : ℕ) (mb : List Buffer)
    → space ≤ length pool
    → All IsValid mb
    → SizeSplit pool space mb
split_size-SizeSplit pool space [] h v = record {
  rest = [];
  front = [];
  result = unfold split_size in refl;
  same = refl;
  small = omega arith;
  full = inl (omega arith);
  maximal = inl refl;
  rest_valid = tt;
  front_valid = tt;
  shrinks = λ one some_left. absurd (omega (arith, some_left));
}
split_size-SizeSplit pool space (b ∷ mb) h v = elim (Bool-cases (ltb space (len b))) [
  | inl f ↦ split_size_at_front pool space b mb h v f
  | inr f ↦
      let (same, small) = split_fitting-multi_bytes space (b ∷ mb) v in
      let (front_valid, rest_valid, _) = split_fitting-IsValid space (b ∷ mb) v in
      let r = (split_fitting space (b ∷ mb)).0 in
      let left = (split_fitting space (b ∷ mb)).1 in
      record {
        rest = left;
        front = r;
        result = split_size_whole pool space b mb f;
        same = same;
        small = small;
        full = inl (ground arith);
        maximal = split_fitting_full space (b ∷ mb) v;
        rest_valid = rest_valid;
        front_valid = front_valid;
        shrinks = λ one some_left. omega (
          arith,
          split_fitting_fewer space b mb f v.1,
          ap length same,
          length-append (multi_bytes r) (multi_bytes left),
        );
      }
]
