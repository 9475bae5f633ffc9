-- ===== src/Buf/Slices.antt =====
-- What the operations of a buffer do to the bytes between its start and its end.
use xray_core_python.Prelude.{
  ℕ, zero, suc, ◌+◌, ◌-◌, ◌≤◌, ◌<◌, ◌≡◌, refl, sym, ap, ◌∙◌, List, [], ◌∷◌, ◌++◌, length, get_or,
  take, drop, take-append, length-take, length-drop, length-append, take-all, drop-all, arith,
}
use xray_core_python.Buf.{Buffer, slice, bytes, overwrite, zeros}

-- The start is before the end, and the end inside the slice.
pub record IsValid (b : Buffer) : Type 0 where
  pub ordered : b.start ≤ b.stop
  pub inside : b.stop ≤ length b.v

drop-append_le : (n : ℕ) (xs ys : List ℕ) → n ≤ length xs → drop n (xs ++ ys) ≡ drop n xs ++ ys
drop-append_le zero xs ys h = refl
drop-append_le (suc n) [] ys h = absurd (omega arith)
drop-append_le (suc n) (x ∷ xs) ys h = drop-append_le n xs ys (omega arith)

take-append_add :
    (m n : ℕ) (xs ys : List ℕ) → length xs ≡ m → take (m + n) (xs ++ ys) ≡ xs ++ take n ys
take-append_add zero n [] ys h = let e : 0 + n ≡ n = omega arith in rw e refl
take-append_add (suc m) n [] ys h = absurd (omega arith)
take-append_add zero n (x ∷ xs) ys h = absurd (omega arith)
take-append_add (suc m) n (x ∷ xs) ys h =
    let e : suc m + n ≡ suc (m + n) = omega arith in
    rw e (ap (λ t. x ∷ t) (take-append_add m n xs ys (omega arith)))

drop-drop : (m n : ℕ) (xs : List ℕ) → drop n (drop m xs) ≡ drop (m + n) xs
drop-drop zero n xs = let e : 0 + n ≡ n = omega arith in rw e refl
drop-drop (suc m) n [] = drop-all n [] (omega arith) ∙ sym (drop-all (suc m + n) [] (omega arith))
drop-drop (suc m) n (x ∷ xs) =
    let e : suc m + n ≡ suc (m + n) = omega arith in rw e (drop-drop m n xs)

take-take : (m n : ℕ) (xs : List ℕ) → m ≤ n → take m (take n xs) ≡ take m xs
take-take zero n xs h = refl
take-take (suc m) zero xs h = absurd (omega arith)
take-take (suc m) (suc n) [] h = refl
take-take (suc m) (suc n) (x ∷ xs) h = ap (λ t. x ∷ t) (take-take m n xs (omega arith))

take-drop : (m n : ℕ) (xs : List ℕ) → take n (drop m xs) ≡ drop m (take (m + n) xs)
take-drop zero n xs = let e : 0 + n ≡ n = omega arith in rw e refl
take-drop (suc m) n [] =
    take-all n [] (omega arith) ∙ ap (drop (suc m)) (sym (take-all (suc m + n) [] (omega arith)))
take-drop (suc m) n (x ∷ xs) =
    let e : suc m + n ≡ suc (m + n) = omega arith in rw e (take-drop m n xs)

pub length-bytes : (b : Buffer) → IsValid b → length (bytes b) ≡ b.stop - b.start
length-bytes b h =
    omega (arith, length-drop b.start (take b.stop b.v), length-take b.stop b.v, h.inside)

pub length-overwrite :
    (at : ℕ) (bs v : List ℕ) → at + length bs ≤ length v → length (overwrite at bs v) ≡ length v
length-overwrite at bs v h = omega (
  arith,
  length-append (take at v) (bs ++ drop (at + length bs) v),
  length-append bs (drop (at + length bs) v),
  length-take at v,
  length-drop (at + length bs) v,
)

-- Bytes behind the content become its end.
pub bytes-overwrite :
    (bs : List ℕ) (b : Buffer)
    → IsValid b
    → b.stop + length bs ≤ length b.v
    → drop b.start (take (b.stop + length bs) (overwrite b.stop bs b.v)) ≡ bytes b ++ bs
bytes-overwrite bs b h room =
    let kept : length (take b.stop b.v) ≡ b.stop =
      omega (arith, length-take b.stop b.v, h.inside) in
    ap (drop b.start) (
      take-append_add b.stop (length bs) (take b.stop b.v) (bs ++ drop (b.stop + length bs) b.v)
        kept
      ∙ ap (λ t. take b.stop b.v ++ t)
          (take-append (length bs) bs (drop (b.stop + length bs) b.v) refl))
    ∙ drop-append_le b.start (take b.stop b.v) bs (omega (arith, kept, h.ordered))

-- A start that moves on drops bytes from the front.
pub bytes-drop : (n : ℕ) (b : Buffer) → drop (b.start + n) (take b.stop b.v) ≡ drop n (bytes b)
bytes-drop n b = sym (drop-drop b.start n (take b.stop b.v))

-- The front of the content as a slice.
pub slice-take :
    (n : ℕ) (b : Buffer) → b.start + n ≤ b.stop → slice b.start (b.start + n) b ≡ take n (bytes b)
slice-take n b h =
    ap (drop b.start) (sym (take-take (b.start + n) b.stop b.v h))
    ∙ sym (take-drop b.start n (take b.stop b.v))

pub get_or-bytes :
    (n : ℕ) (b : Buffer) → b.start + n < b.stop → get_or (bytes b) n 0 ≡ get_or b.v (b.start + n) 0
get_or-bytes n b h =
    get_or-drop b.start n (take b.stop b.v) ∙ get_or-take (b.start + n) b.stop b.v h
  where
    get_or-drop : (m n : ℕ) (xs : List ℕ) → get_or (drop m xs) n 0 ≡ get_or xs (m + n) 0
    get_or-drop zero n xs = let e : 0 + n ≡ n = omega arith in rw e refl
    get_or-drop (suc m) n [] = refl
    get_or-drop (suc m) n (x ∷ xs) =
        let e : suc m + n ≡ suc (m + n) = omega arith in rw e (get_or-drop m n xs)

    get_or-take : (i n : ℕ) (xs : List ℕ) → i < n → get_or (take n xs) i 0 ≡ get_or xs i 0
    get_or-take i zero xs h = absurd (omega arith)
    get_or-take i (suc n) [] h = refl
    get_or-take zero (suc n) (x ∷ xs) h = refl
    get_or-take (suc i) (suc n) (x ∷ xs) h = get_or-take i n xs (omega arith)

pub length-zeros : (n : ℕ) → length (zeros n) ≡ n
length-zeros zero = refl
length-zeros (suc n) = ap suc (length-zeros n)
