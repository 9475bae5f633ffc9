-- ===== src/Address/RoundTrip.antt =====
-- An address with its port reads back as it was written.
use xray_core_python.Prelude.{
  same_bytes, ℕ, ◌+◌, ◌≤◌, ◌<◌, ◌≡◌, ◌⊎◌, refl, ap, ◌∙◌, true, false, Option, none, some, List, [],
  ◌∷◌, ◌++◌, append_assoc, ltb, leb, ◌==◌, if◌then◌else◌, length, get_or, take, length-append,
  arith, Bool-cases, inl, inr, put_u16, get_u16-put_u16, u8, IsU16,
}
use xray_core_python.Buf.{Buffer}
use xray_core_python.Address.{
  Family, family_ipv4, family_ipv6, family_domain, Address, ipv4, ipv6, domain, family,
  mapped_prefix, ip_address, maybe_ip_prefix, is_valid_domain, is_domain_too_long, AddressParser,
  ok, then_read, parsed_type, read_port, as_domain, read_family, read_address, read_address_port,
  parse_address, write_address, write_address_port,
}
use xray_core_python.Address.Reading.{
  fill, Fits, fill-Fits, Fits-less, read_last_lem, read_last_byte_lem,
}

-- A parser that knows the byte that it writes for a family.
pub record Knows (p : AddressParser) (f : Family) : Type 0 where
  pub plain : p.type_parser ≡ none
  pub small : p.addr_byte_map f < 16
  pub mapped : p.addr_type_map (p.addr_byte_map f) ≡ some f

read_port_lem :
    (port : ℕ) (rest : List ℕ) (b : Buffer)
    → Fits 2 b
    → IsU16 port
    → read_port b (put_u16 port ++ rest) ≡ ok port (fill (put_u16 port) b) rest
unfolding read_port
read_port_lem port rest b h u =
    rw (read_last_lem 2 (put_u16 port) rest b h refl (omega arith))
      (ap (λ t. ok t (fill (put_u16 port) b) rest) (get_u16-put_u16 port [] u))

pub parsed_type_lem : (p : AddressParser) (t : ℕ) → p.type_parser ≡ none → parsed_type p t ≡ t
parsed_type_lem p t e = ground arith

module _ (parse_ip : List ℕ → Option (List ℕ)) (trim_space : List ℕ → List ℕ) where
  -- What the wire carries: an IP of its length that is not a mapped one, or a domain of 1 to 255
  -- valid bytes that does not parse as an IP.
  abbrev pub IsPlain : Address → Type 0
  IsPlain (ipv4 ip) = length ip ≡ 4
  IsPlain (ipv6 ip) = (length ip ≡ 16) × (same_bytes (take 12 ip) mapped_prefix ≡ false)
  IsPlain (domain d) =
      (1 ≤ length d)
      × (length d ≤ 255)
      × (is_valid_domain d ≡ true)
      × ((maybe_ip_prefix (get_or d 0 0) ≡ false)
          ⊎ (parse_address parse_ip trim_space d ≡ some (domain d)))

  -- The bytes behind the byte of the family.
  abbrev pub body : Address → List ℕ
  body (ipv4 ip) = ip
  body (ipv6 ip) = ip
  body (domain d) = length d ∷ d

  ip_address_ipv4 : (ip : List ℕ) → length ip ≡ 4 → ip_address ip ≡ some (ipv4 ip)
  unfolding ip_address
  ip_address_ipv4 ip e = let f : (length ip == 4) ≡ true = ground arith in rw f refl

  ip_address_ipv6 :
      (ip : List ℕ)
      → length ip ≡ 16
      → same_bytes (take 12 ip) mapped_prefix ≡ false
      → ip_address ip ≡ some (ipv6 ip)
  unfolding ip_address
  ip_address_ipv6 ip e m =
      let f : (length ip == 4) ≡ false = ground arith in
      let g : (length ip == 16) ≡ true = ground arith in rw (f, g, m) refl

  as_domain_lem :
      (d : List ℕ) (b : Buffer) (rest : List ℕ)
      → IsPlain (domain d)
      → as_domain parse_ip trim_space d b rest ≡ ok (domain d) b rest
  unfolding as_domain
  as_domain_lem d b rest (l, s, v, inl e) = rw (e, v) refl
  as_domain_lem d b rest (l, s, v, inr e) = elim (Bool-cases (maybe_ip_prefix (get_or d 0 0))) [
    | inl f ↦ rw (f, e, v) refl
    | inr f ↦ rw (f, v) refl
  ]

  -- The buffer after an address.
  abbrev pub filled_with : Address → Buffer → Buffer
  filled_with (ipv4 ip) b = fill ip b
  filled_with (ipv6 ip) b = fill ip b
  filled_with (domain d) b = fill d (fill (length d ∷ []) b)

  read_family_lem :
      (a : Address) (rest : List ℕ) (b : Buffer)
      → IsPlain a
      → Fits (length (body a)) b
      → read_family parse_ip trim_space (some (family a)) b (body a ++ rest)
        ≡ ok a (filled_with a b) rest
  unfolding read_family
  read_family_lem (ipv4 ip) rest b w h =
      rw
        (
          read_last_lem 4 ip rest b (Fits-less 4 (length ip) b h (omega (arith, w))) w
              (omega arith),
          ip_address_ipv4 ip w,
        )
        refl
  read_family_lem (ipv6 ip) rest b w h =
      rw
        (
          read_last_lem 16 ip rest b (Fits-less 16 (length ip) b h (omega (arith, w.0))) w.0
              (omega arith),
          ip_address_ipv6 ip w.0 w.1,
        )
        refl
  read_family_lem (domain d) rest b w h =
      rw
        (
          read_last_byte_lem (length d) (d ++ rest) b (Fits-less 1 _ b h (omega arith)),
          read_last_lem (length d) d rest (fill (length d ∷ []) b)
              (fill-Fits 1 (length d) (length d ∷ []) b refl (Fits-less _ _ b h (omega arith))) refl
              w.0,
          as_domain_lem d (fill d (fill (length d ∷ []) b)) rest w,
        )
        refl

  wire : AddressParser → Address → List ℕ
  wire p a = p.addr_byte_map (family a) ∷ body a

  write_address_lem :
      (p : AddressParser) (a : Address)
      → Knows p (family a)
      → IsPlain a
      → write_address p a ≡ some (wire p a)
  unfolding write_address wire is_domain_too_long
  write_address_lem p (ipv4 ip) k w =
      let f : (p.addr_byte_map family_ipv4 == 255) ≡ false = ground (arith, k.small) in rw f refl
  write_address_lem p (ipv6 ip) k w =
      let f : (p.addr_byte_map family_ipv6 == 255) ≡ false = ground (arith, k.small) in rw f refl
  write_address_lem p (domain d) k w =
      let f : (p.addr_byte_map family_domain == 255) ≡ false = ground (arith, k.small) in
      let g : ltb 256 (length d) ≡ false = ground (arith, w.1) in
      let e : u8 (length d) ≡ length d = omega (arith, w.1) in rw (f, g, e) refl

  read_address_lem :
      (p : AddressParser) (a : Address) (rest : List ℕ) (b : Buffer)
      → Knows p (family a)
      → IsPlain a
      → Fits (1 + length (body a)) b
      → read_address parse_ip trim_space p b (wire p a ++ rest)
        ≡ ok a (filled_with a (fill (p.addr_byte_map (family a) ∷ []) b)) rest
  unfolding read_address wire
  read_address_lem p a rest b k w h =
      let tb = p.addr_byte_map (family a) in
      let f : leb 16 tb ≡ false = ground (arith, k.small) in
      rw
        (
          read_last_byte_lem tb (body a ++ rest) b (Fits-less 1 _ b h (omega arith)),
          parsed_type_lem p tb k.plain,
          f,
          k.mapped,
        )
        (read_family_lem a rest (fill (tb ∷ []) b) w
          (fill-Fits 1 (length (body a)) (tb ∷ []) b refl h))

  pub wire_port : AddressParser → Address → ℕ → List ℕ
  wire_port p a port = if p.port_first then put_u16 port ++ wire p a else wire p a ++ put_u16 port

  wire_port_first :
      (p : AddressParser) (a : Address) (port : ℕ)
      → p.port_first ≡ true
      → wire_port p a port ≡ put_u16 port ++ wire p a
  unfolding wire_port
  wire_port_first p a port f = rw f refl

  wire_port_last :
      (p : AddressParser) (a : Address) (port : ℕ)
      → p.port_first ≡ false
      → wire_port p a port ≡ wire p a ++ put_u16 port
  unfolding wire_port
  wire_port_last p a port f = rw f refl

  pub write_address_port_lem :
      (p : AddressParser) (a : Address) (port : ℕ)
      → Knows p (family a)
      → IsPlain a
      → write_address_port p a port ≡ some (wire_port p a port)
  unfolding write_address_port wire_port
  write_address_port_lem p a port k w = rw (write_address_lem p a k w, write_address_port) refl

  filled_with-Fits :
      (n : ℕ) (a : Address) (b : Buffer) → Fits (length (body a) + n) b → Fits n (filled_with a b)
  filled_with-Fits n (ipv4 ip) b h = fill-Fits (length ip) n ip b refl h
  filled_with-Fits n (ipv6 ip) b h = fill-Fits (length ip) n ip b refl h
  filled_with-Fits n (domain d) b h =
      fill-Fits (length d) n d (fill (length d ∷ []) b) refl
        (fill-Fits 1 (length d + n) (length d ∷ []) b refl (Fits-less _ _ b h (omega arith)))

  read_address_port_first :
      (p : AddressParser) (b : Buffer) (input : List ℕ)
      → p.port_first ≡ true
      → read_address_port parse_ip trim_space p b input
        ≡ then_read (read_port b input) (λ port b' rest.
          then_read
            (read_address parse_ip trim_space p b' rest)
            (λ a b'' rest'. ok (a, port) b'' rest'))
  unfolding read_address_port
  read_address_port_first p b input f = simp (f)

  read_address_port_last :
      (p : AddressParser) (b : Buffer) (input : List ℕ)
      → p.port_first ≡ false
      → read_address_port parse_ip trim_space p b input
        ≡ then_read
            (read_address parse_ip trim_space p b input)
            (λ a b' rest. then_read (read_port b' rest) (λ port b'' rest'. ok (a, port) b'' rest'))
  unfolding read_address_port
  read_address_port_last p b input f = simp (f)

  read_port_first :
      (p : AddressParser) (a : Address) (port : ℕ) (rest : List ℕ) (b : Buffer)
      → p.port_first ≡ true
      → Knows p (family a)
      → IsPlain a
      → IsU16 port
      → Fits (3 + length (body a)) b
      → (b' : Buffer) × (read_address_port parse_ip trim_space p b
            (put_u16 port ++ (wire p a ++ rest))
          ≡ ok (a, port) b' rest)
  read_port_first p a port rest b f k w u h = (
    filled_with a (fill (p.addr_byte_map (family a) ∷ []) (fill (put_u16 port) b)),
    rw
        (
          read_address_port_first p b _ f,
          read_port_lem port (wire p a ++ rest) b (Fits-less 2 _ b h (omega arith)) u,
          read_address_lem p a rest (fill (put_u16 port) b) k w (
              fill-Fits 2 (1 + length (body a)) (put_u16 port) b refl
                (Fits-less _ _ b h (omega arith))),
        )
        refl,
  )

  read_port_last :
      (p : AddressParser) (a : Address) (port : ℕ) (rest : List ℕ) (b : Buffer)
      → p.port_first ≡ false
      → Knows p (family a)
      → IsPlain a
      → IsU16 port
      → Fits (3 + length (body a)) b
      → (b' : Buffer) × (read_address_port parse_ip trim_space p b
            (wire p a ++ (put_u16 port ++ rest))
          ≡ ok (a, port) b' rest)
  read_port_last p a port rest b f k w u h =
      let tb = p.addr_byte_map (family a) in
      let b1 = filled_with a (fill (tb ∷ []) b) in
      let h1 : Fits 2 b1 =
        filled_with-Fits 2 a (fill (tb ∷ []) b)
          (fill-Fits 1 (length (body a) + 2) (tb ∷ []) b refl (Fits-less _ _ b h (omega arith))) in
      (
        fill (put_u16 port) b1,
        rw
            (
              read_address_port_last p b _ f,
              read_address_lem p a (put_u16 port ++ rest) b k w (Fits-less _ _ b h (omega arith)),
              read_port_lem port rest b1 h1 u,
            )
            refl,
      )

  -- The bytes of an address with its port, read back.
  pub read_wire_port :
      (p : AddressParser) (a : Address) (port : ℕ) (rest : List ℕ) (b : Buffer)
      → Knows p (family a)
      → IsPlain a
      → IsU16 port
      → Fits (3 + length (body a)) b
      → (b' : Buffer) × (read_address_port parse_ip trim_space p b (wire_port p a port ++ rest)
          ≡ ok (a, port) b' rest)
  read_wire_port p a port rest b k w u h = elim (Bool-cases p.port_first) [
    | inl f ↦
        let (b', e) = read_port_first p a port rest b f k w u h in
        (
          b',
          ap (λ t. read_address_port parse_ip trim_space p b (t ++ rest))
                (wire_port_first p a port f)
              ∙ ap (read_address_port parse_ip trim_space p b)
                  (append_assoc (put_u16 port) (wire p a) rest)
              ∙ e,
        )
    | inr f ↦
        let (b', e) = read_port_last p a port rest b f k w u h in
        (
          b',
          ap (λ t. read_address_port parse_ip trim_space p b (t ++ rest))
                (wire_port_last p a port f)
              ∙ ap (read_address_port parse_ip trim_space p b)
                  (append_assoc (wire p a) (put_u16 port) rest)
              ∙ e,
        )
  ]

  -- An address that the wire carries, with its port, is written by a parser that knows its family,
  -- and reads back from what was written, with any bytes behind it, by the same parser, whether the
  -- port stands first or last; the buffer has room for it.
  pub read_address_port-write :
      (p : AddressParser) (a : Address) (port : ℕ) (rest : List ℕ) (b : Buffer)
      → Knows p (family a)
      → IsPlain a
      → IsU16 port
      → Fits (3 + length (body a)) b
      → (bs : List ℕ) × (b' : Buffer) × (write_address_port p a port ≡ some bs)
        × (read_address_port parse_ip trim_space p b (bs ++ rest) ≡ ok (a, port) b' rest)
  read_address_port-write p a port rest b k w u h =
      let (b', e) = read_wire_port p a port rest b k w u h in
      (wire_port p a port, b', write_address_port_lem p a port k w, e)

  pub length-body : (a : Address) → IsPlain a → (1 ≤ length (body a)) × (length (body a) ≤ 256)
  length-body (ipv4 ip) w = (omega (arith, w), omega (arith, w))
  length-body (ipv6 ip) w = (omega (arith, w.0), omega (arith, w.0))
  length-body (domain d) w = (omega (arith, w.1), omega (arith, w.1))

  pub length-wire_port :
      (p : AddressParser) (a : Address) (port : ℕ)
      → length (wire_port p a port) ≡ 3 + length (body a)
  unfolding wire_port wire
  length-wire_port p a port = elim (Bool-cases p.port_first) [
    | inl f ↦ rw f (omega arith)
    | inr f ↦ rw (f, length-append (body a) (put_u16 port)) (omega arith)
  ]
