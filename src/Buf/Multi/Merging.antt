-- ===== src/Buf/Multi/Merging.antt =====
-- `MergeBytes` and the bytes of a list of buffers.
use xray_core_python.Prelude.{
  ℕ, zero, suc, ◌≤◌, ◌≡◌, refl, sym, ap, ap₂, ◌∙◌, min, false, List, [], ◌∷◌, ◌++◌, append_assoc,
  append-nil, ◌==◌, length, take, drop, take-append-drop, length-drop, All, arith, Bool-cases, inl,
  inr,
}
use xray_core_python.Buf.{Buffer, available, is_full, bytes, new_buffer, write}
use xray_core_python.Buf.Slices.{IsValid}
use xray_core_python.Buf.Multi.{new_chunks, merge_bytes}
use xray_core_python.Buf.Multi.Content.{multi_bytes, bytes-write}

write-count : (bs : List ℕ) (b : Buffer) → (write bs b).1 ≡ min (available b) (length bs)
unfolding write
write-count bs b = refl

new_chunks_more :
    (pool : List ℕ) (fuel x : ℕ) (src : List ℕ)
    → let n = min (available (new_buffer pool)) (length (x ∷ src)) in
      new_chunks pool (suc fuel) (x ∷ src)
      ≡ (write (x ∷ src) (new_buffer pool)).0 ∷ new_chunks pool fuel (drop n (x ∷ src))
unfolding new_chunks write
new_chunks_more pool fuel x src =
    let e : (suc (length src) == 0) ≡ false = ground arith in rw e refl

new_chunks-multi_bytes :
    (pool : List ℕ) (fuel : ℕ) (src : List ℕ)
    → 1 ≤ length pool
    → length src ≤ fuel
    → multi_bytes (new_chunks pool fuel src) ≡ src
new_chunks-multi_bytes pool zero [] h l = unfold new_chunks in refl
new_chunks-multi_bytes pool zero (x ∷ src) h l = absurd (omega arith)
new_chunks-multi_bytes pool (suc fuel) [] h l = unfold new_chunks in refl
new_chunks-multi_bytes pool (suc fuel) (x ∷ src) h l =
    let valid : IsValid (new_buffer pool) = record {
      ordered = omega arith;
      inside = omega arith;
    } in
    let n = min (available (new_buffer pool)) (length (x ∷ src)) in
    ap multi_bytes (new_chunks_more pool fuel x src)
    ∙ ap₂ (λ (s t : List ℕ). s ++ t) ((bytes-write (x ∷ src) (new_buffer pool) valid).1)
        (new_chunks-multi_bytes pool fuel (drop n (x ∷ src)) h
          (omega (arith, length-drop n (x ∷ src), l)))
    ∙ take-append-drop n (x ∷ src)

-- `MergeBytes` puts the bytes behind the content, whatever the buffers of the pool hold.
pub merge_bytes-multi_bytes :
    (pool : List ℕ) (mb : List Buffer) (src : List ℕ)
    → 1 ≤ length pool
    → All IsValid mb
    → multi_bytes (merge_bytes pool mb src) ≡ multi_bytes mb ++ src
unfolding merge_bytes
merge_bytes-multi_bytes pool [] src h v =
    new_chunks-multi_bytes pool (length src) src h (omega arith)
merge_bytes-multi_bytes pool (b ∷ (c ∷ mb)) src h v =
    ap (λ t. bytes b ++ t) (merge_bytes-multi_bytes pool (c ∷ mb) src h v.1)
    ∙ sym (append_assoc (bytes b) (multi_bytes (c ∷ mb)) src)
merge_bytes-multi_bytes pool (b ∷ []) src h v = elim (Bool-cases (is_full b)) [
  | inl f ↦ rw f (
      ap (λ t. bytes b ++ t) (new_chunks-multi_bytes pool (length src) src h (omega arith))
      ∙ ap (λ t. t ++ src) (sym (append-nil (bytes b))))
  | inr f ↦
      let n = min (available b) (length src) in
      rw (f, write-count src b)
        (ap₂ (λ (s t : List ℕ). s ++ t) ((bytes-write src b v.0).1)
            (new_chunks-multi_bytes pool (length src) (drop n src) h
              (omega (arith, length-drop n src)))
          ∙ append_assoc (bytes b) (take n src) (drop n src)
          ∙ ap₂ (λ (s t : List ℕ). s ++ t) (sym (append-nil (bytes b))) (take-append-drop n src))
]
