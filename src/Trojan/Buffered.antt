-- ===== src/Trojan/Buffered.antt =====
-- Writes into a buffer of 8192 bytes, and reads of a number of bytes.
use xray_core_python.Prelude.{
  ℕ, zero, suc, ◌+◌, ◌-◌, ◌≤◌, ◌<◌, ◌≡◌, refl, sym, ap, ◌∙◌, min, false, none, some, List, [], ◌∷◌,
  ◌++◌, append_assoc, append-nil, ltb, ◌==◌, length, take-append, drop-append, length-append,
  flatten, arith, Bool-cases, inl, inr,
}
use xray_core_python.Trojan.{write_pieces, read_full, read_payload}

-- Writes that fit together are one write.
pub write_pieces_fits :
    (ps : List (List ℕ)) (content : List ℕ)
    → length content + length (flatten ps) ≤ 8192
    → write_pieces ps content ≡ some (content ++ flatten ps)
unfolding write_pieces
write_pieces_fits [] content h = ap some (sym (append-nil content))
write_pieces_fits (p ∷ ps) content h =
    let f : ltb 8192 (length content + length p) ≡ false =
      ground (arith, length-append p (flatten ps), h) in
    rw (f) (
      write_pieces_fits ps (content ++ p)
        (omega (arith, h, length-append p (flatten ps), length-append content p))
      ∙ ap some (append_assoc content p (flatten ps)))

pub write_pieces_full :
    (ps : List (List ℕ)) (content : List ℕ)
    → 8192 < length content + length (flatten ps)
    → length content ≤ 8192
    → write_pieces ps content ≡ none
unfolding write_pieces
write_pieces_full [] content h l = absurd (omega (arith, h, l))
write_pieces_full (p ∷ ps) content h l = elim (Bool-cases (ltb 8192 (length content + length p))) [
  | inl f ↦ rw (f) refl
  | inr f ↦ rw (f) (
      write_pieces_full ps (content ++ p)
        (omega (arith, h, length-append p (flatten ps), length-append content p))
        (ground (arith, length-append content p)))
]

pub read_full_lem :
    (n : ℕ) (q rest : List ℕ) → length q ≡ n → read_full n (q ++ rest) ≡ some (q, rest)
unfolding read_full
read_full_lem n q rest e =
    let f : ltb (length (q ++ rest)) n ≡ false = ground (arith, length-append q rest) in
    rw (f, take-append n q rest e, drop-append n q rest e) refl

-- The buffers of a payload that one buffer holds.
abbrev pub in_buffers : List ℕ → List (List ℕ)
in_buffers [] = []
in_buffers (x ∷ payload) = (x ∷ payload) ∷ []

read_nothing : (fuel : ℕ) (input : List ℕ) → read_payload fuel 0 input ≡ some ([], input)
unfolding read_payload
read_nothing zero input = refl
read_nothing (suc fuel) input = refl

pub read_payload_lem :
    (n : ℕ) (payload rest : List ℕ)
    → length payload ≡ n
    → n ≤ 8192
    → read_payload n n (payload ++ rest) ≡ some (in_buffers payload, rest)
unfolding read_payload
read_payload_lem zero [] rest e h = refl
read_payload_lem zero (x ∷ payload) rest e h = absurd (omega (arith, e))
read_payload_lem (suc n) [] rest e h = absurd (omega (arith, e))
read_payload_lem (suc n) (x ∷ payload) rest e h =
    let z : (suc n == 0) ≡ false = ground arith in
    let m : min (suc n) 8192 ≡ suc n = omega (arith, h) in
    let k : suc n - suc n ≡ 0 = omega arith in
    rw (z, m, read_full_lem (suc n) (x ∷ payload) rest e, k, read_nothing n rest) refl
