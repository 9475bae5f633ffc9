-- ===== src/Address/Reading.antt =====
-- A read of as many bytes as the input begins with.
use xray_core_python.Prelude.{
  get_or-append, ℕ, zero, suc, ◌+◌, ◌-◌, ◌≤◌, ◌≡◌, refl, ap, ◌∙◌, true, false, some, List, [], ◌∷◌,
  ◌++◌, ltb, length, take, drop, take-append, drop-append, drop-all, length-take, length-append,
  arith,
}
use xray_core_python.Buf.{Buffer, len, overwrite, byte, bytes_from, filled, read_full_from}
use xray_core_python.Buf.Slices.{IsValid, bytes-overwrite, length-overwrite}
use xray_core_python.Address.{ok, last_bytes, read_last, read_last_byte}

-- A buffer with some bytes behind its content.
abbrev pub fill : List ℕ → Buffer → Buffer
fill q b = record b { v = overwrite b.stop q b.v; stop = b.stop + length q }

pub record Fits (n : ℕ) (b : Buffer) : Type 0 where
  pub valid : IsValid b
  pub has_room : b.stop + n ≤ length b.v

pub fill-Fits :
    (m n : ℕ) (q : List ℕ) (b : Buffer) → length q ≡ m → Fits (m + n) b → Fits n (fill q b)
fill-Fits m n q b e h =
    let small : b.stop + length q ≤ length b.v = omega (arith, e, h.has_room) in
    let same = length-overwrite b.stop q b.v small in
    record {
      valid = record {
        ordered = omega (arith, h.valid.ordered);
        inside = omega (arith, same, small);
      };
      has_room = omega (arith, same, e, h.has_room);
    }

pub Fits-less : (m n : ℕ) (b : Buffer) → Fits n b → m ≤ n → Fits m b
Fits-less m n b h l = record { valid = h.valid; has_room = omega (arith, h.has_room, l) }

pub filled_lem :
    (n : ℕ) (q rest : List ℕ) (b : Buffer)
    → Fits n b
    → length q ≡ n
    → read_full_from n (q ++ rest) b ≡ some (fill q b, rest, length q, filled)
unfolding read_full_from
filled_lem n q rest b h e =
    let f : ltb (length b.v) (b.stop + n) ≡ false = ground (arith, h.has_room) in
    let g : ltb (length (q ++ rest)) n ≡ false = ground (arith, length-append q rest) in
    rw (f, g, take-append n q rest e, drop-append n q rest e) refl

-- What was filled in, as a slice.
filled-slice :
    (q : List ℕ) (b : Buffer)
    → b.stop + length q ≤ length b.v
    → drop b.stop (take (b.stop + length q) (overwrite b.stop q b.v)) ≡ q
filled-slice q b h =
    bytes-overwrite q (record b { start = b.stop })
      (record { ordered = omega arith; inside = omega (arith, h) }) h
    ∙ ap (λ t. t ++ q) (drop-all b.stop (take b.stop b.v) (omega (arith, length-take b.stop b.v)))

last_bytes_lem :
    (n : ℕ) (q : List ℕ) (b : Buffer)
    → Fits (suc n) b
    → length q ≡ suc n
    → last_bytes (suc n) (fill q b) ≡ some q
unfolding bytes_from
last_bytes_lem n q b h e =
    let f : ltb (b.stop + length q) (suc n) ≡ false = ground arith in
    let k : (b.stop + length q) - suc n ≡ b.stop = omega (arith, e) in
    rw (f, k, filled-slice q b (omega (arith, e, h.has_room)), bytes_from) refl

pub read_last_lem :
    (n : ℕ) (q rest : List ℕ) (b : Buffer)
    → Fits n b
    → length q ≡ n
    → 1 ≤ n
    → read_last n b (q ++ rest) ≡ ok q (fill q b) rest
unfolding read_last
read_last_lem zero q rest b h e l = absurd (omega arith)
read_last_lem (suc n) q rest b h e l =
    rw (filled_lem (suc n) q rest b h e, read_last, last_bytes_lem n q b h e) refl

last_byte_lem :
    (x : ℕ) (b : Buffer) → Fits 1 b → byte (len (fill (x ∷ []) b) - 1) (fill (x ∷ []) b) ≡ some x
unfolding byte
last_byte_lem x b h =
    let k : b.start + (((b.stop + 1) - b.start) - 1) ≡ b.stop = omega (arith, h.valid.ordered) in
    let same = length-overwrite b.stop (x ∷ []) b.v h.has_room in
    let f : ltb b.stop (length (overwrite b.stop (x ∷ []) b.v)) ≡ true =
      ground (arith, same, h.has_room) in
    rw
      (
        k,
        f,
        get_or-append b.stop (take b.stop b.v) x (drop (b.stop + 1) b.v)
            (omega (arith, length-take b.stop b.v, h.valid.inside)),
      )
      refl

pub read_last_byte_lem :
    (x : ℕ) (rest : List ℕ) (b : Buffer)
    → Fits 1 b
    → read_last_byte b (x ∷ rest) ≡ ok x (fill (x ∷ []) b) rest
unfolding read_last_byte
read_last_byte_lem x rest b h =
    rw (filled_lem 1 (x ∷ []) rest b h refl, read_last_byte, last_byte_lem x b h) refl
