-- ===== src/Address/LongDomain.antt =====
-- A domain of 256 bytes, whose length is the byte 0.
use xray_core_python.Prelude.{
  ℕ, ◌+◌, ◌<◌, ◌≡◌, refl, ap, ◌∙◌, false, Option, some, List, [], ◌∷◌, ◌++◌, append-nil, ltb, leb,
  ◌==◌, length, arith, drop-all, take, length-take,
}
use xray_core_python.Buf.{Buffer, from_start, bytes, bytes_from}
use xray_core_python.Buf.Slices.{bytes-overwrite}
use xray_core_python.Address.{
  family_domain, domain, is_domain_byte, maybe_ip_prefix, is_valid_domain, is_domain_too_long,
  AddressParser, ok, failed, invalid_domain, read_last, as_domain, read_family, read_address,
  write_address,
}
use xray_core_python.Address.Reading.{
  fill, Fits, fill-Fits, Fits-less, filled_lem, read_last_byte_lem,
}
use xray_core_python.Address.RoundTrip.{Knows, parsed_type_lem}

bytes-fill : (q : List ℕ) (b : Buffer) → Fits (length q) b → bytes (fill q b) ≡ bytes b ++ q
bytes-fill q b h = bytes-overwrite q b h.valid h.has_room

bytes_from_lem : (b : Buffer) → Fits 0 b → bytes_from (from_start 0) b ≡ some (bytes b)
unfolding bytes_from
bytes_from_lem b h =
    let e : b.start + 0 ≡ b.start = omega arith in
    let f : ltb b.stop b.start ≡ false = ground (arith, h.valid.ordered) in rw (e, f) refl

read_last_zero :
    (b : Buffer) (input : List ℕ) → Fits 0 b → read_last 0 b input ≡ ok (bytes b) (fill [] b) input
unfolding read_last
read_last_zero b input h =
    rw
      (
        filled_lem 0 [] input b h refl,
        read_last,
        bytes_from_lem (fill [] b) (fill-Fits 0 0 [] b refl h),
        bytes-fill [] b h,
        append-nil (bytes b),
      )
      refl

low_byte : (t : ℕ) → t < 16 → (is_domain_byte t ≡ false) × (maybe_ip_prefix t ≡ false)
unfolding maybe_ip_prefix
low_byte t h = (ground (arith, h), ground (arith, h))

as_domain_low :
    (parse_ip : List ℕ → Option (List ℕ)) (trim_space : List ℕ → List ℕ) (t : ℕ) (d : List ℕ)
    (b : Buffer) (rest : List ℕ)
    → t < 16
    → as_domain parse_ip trim_space (t ∷ d) b rest ≡ failed invalid_domain
unfolding as_domain is_valid_domain
as_domain_low parse_ip trim_space t d b rest h = let (f, g) = low_byte t h in rw (g, f) refl

bytes-empty : (b : Buffer) → b.start ≡ b.stop → bytes b ≡ []
bytes-empty b e = drop-all b.start (take b.stop b.v) (omega (arith, length-take b.stop b.v, e))

module _ (parse_ip : List ℕ → Option (List ℕ)) (trim_space : List ℕ → List ℕ) where
  -- A parser that knows domains writes one of 256 bytes without an error, with 0 as its length, and
  -- does not read it back: into an empty buffer with room for two bytes, the same parser stops at
  -- what was written with the error of an invalid domain, whatever stands behind it.
  pub read_address-write_long :
      (p : AddressParser) (d rest : List ℕ) (b : Buffer)
      → Knows p family_domain
      → length d ≡ 256
      → Fits 2 b
      → b.start ≡ b.stop
      → (write_address p (domain d) ≡ some (p.addr_byte_map family_domain ∷ 0 ∷ d))
        × (read_address parse_ip trim_space p b (p.addr_byte_map family_domain ∷ 0 ∷ (d ++ rest))
            ≡ failed invalid_domain)
  unfolding write_address read_address read_family is_domain_too_long
  read_address-write_long p d rest b k e h empty =
      let tb = p.addr_byte_map family_domain in
      let b1 = fill (tb ∷ []) b in
      let b2 = fill (0 ∷ []) b1 in
      let h1 : Fits 1 b1 = fill-Fits 1 1 (tb ∷ []) b refl h in
      let h2 : Fits 0 b2 = fill-Fits 1 0 (0 ∷ []) b1 refl h1 in
      let f : leb 16 tb ≡ false = ground (arith, k.small) in
      let g : (tb == 255) ≡ false = ground (arith, k.small) in
      let c : bytes b2 ≡ tb ∷ 0 ∷ [] =
        bytes-fill (0 ∷ []) b1 h1
        ∙ ap (λ t. t ++ (0 ∷ []))
            (bytes-fill (tb ∷ []) b (Fits-less 1 2 b h (omega arith))
              ∙ ap (λ t. t ++ (tb ∷ [])) (bytes-empty b empty)) in
      (
        rw (g, e) refl,
        rw
            (
              read_last_byte_lem tb (0 ∷ (d ++ rest)) b (Fits-less 1 2 b h (omega arith)),
              parsed_type_lem p tb k.plain,
              f,
              k.mapped,
              read_last_byte_lem 0 (d ++ rest) b1 h1,
              read_last_zero b2 (d ++ rest) h2,
              c,
              as_domain_low parse_ip trim_space tb (0 ∷ []) (fill [] b2) (d ++ rest) k.small,
            )
            refl,
      )
