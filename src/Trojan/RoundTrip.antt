-- ===== src/Trojan/RoundTrip.antt =====
-- Headers and packets read back as they were written.
use xray_core_python.Prelude.{
  ℕ, ◌≤◌, ◌≡◌, refl, sym, ap, ◌∙◌, true, Option, some, List, [], ◌∷◌, ◌++◌, append_assoc, ◌==◌,
  if◌then◌else◌, length, length-append, flatten, arith, u16, put_u16,
}
use xray_core_python.Buf.{new_buffer}
use xray_core_python.Address.{Address, Family, family_ipv4, family_ipv6, family_domain, family}
use xray_core_python.Address.RoundTrip.{
  Knows, wire_port, write_address_port_lem, read_wire_port, length-body, length-wire_port,
}
use xray_core_python.Mux.Frame.{
  Network, network_unknown, network_tcp, network_udp, network_unix, Destination, is_named,
}
use xray_core_python.Mux.Frame.Parts.{Sent}
use xray_core_python.Trojan.{
  crlf, addr_parser, command, command_udp, write_target, ConnWriter, write_header, read_target,
  parse_header,
}
use xray_core_python.Trojan.Buffered.{write_pieces_fits, read_full_lem}

addr_parser-Knows : (f : Family) → Knows addr_parser f
addr_parser-Knows family_ipv4 = record { plain = refl; small = omega arith; mapped = refl }
addr_parser-Knows family_ipv6 = record { plain = refl; small = omega arith; mapped = refl }
addr_parser-Knows family_domain = record { plain = refl; small = omega arith; mapped = refl }

-- The network that a command stands for.
command_lem :
    (n : Network)
    → is_named n ≡ true
    → (if command n == command_udp then network_udp else network_tcp) ≡ n
command_lem network_tcp h = refl
command_lem network_udp h = refl
command_lem network_unknown h = ground arith
command_lem network_unix h = ground arith

module _ (parse_ip : List ℕ → Option (List ℕ)) (trim_space : List ℕ → List ℕ) where
  -- The bytes of a target.
  pub target_bytes : (d : Destination) → Sent parse_ip trim_space d → List ℕ
  target_bytes d s = wire_port parse_ip trim_space addr_parser s.at d.port

  write_target_lem :
      (d : Destination) (s : Sent parse_ip trim_space d) → write_target d ≡ some (target_bytes d s)
  unfolding write_target target_bytes
  write_target_lem d s = rw (s.has_address) (
      write_address_port_lem parse_ip trim_space addr_parser s.at d.port
        (addr_parser-Knows (family s.at)) s.plain)

  length-target_bytes :
      (d : Destination) (s : Sent parse_ip trim_space d) → length (target_bytes d s) ≤ 259
  unfolding target_bytes
  length-target_bytes d s =
      let e = length-wire_port parse_ip trim_space addr_parser s.at d.port in
      let h = length-body parse_ip trim_space s.at s.plain in omega (arith, e, h.1)

module _ (parse_ip : List ℕ → Option (List ℕ)) (trim_space : List ℕ → List ℕ) (fresh : List ℕ)
    (sized : length fresh ≡ 8192) where
  read_target_lem :
      (d : Destination) (rest : List ℕ) (s : Sent parse_ip trim_space d)
      → read_target parse_ip trim_space fresh (target_bytes parse_ip trim_space d s ++ rest)
        ≡ some ((s.at, d.port), rest)
  unfolding read_target target_bytes
  read_target_lem d rest s =
      let size = length-body parse_ip trim_space s.at s.plain in
      let (b', e) =
        read_wire_port parse_ip trim_space addr_parser s.at d.port rest (new_buffer fresh)
          (addr_parser-Knows (family s.at)) s.plain s.word
          (record {
            valid = record { ordered = omega arith; inside = omega arith };
            has_room = omega (arith, sized, size.1);
          }) in
      rw (e) refl

  header_bytes : (c : ConnWriter) → Sent parse_ip trim_space c.target → List ℕ
  header_bytes c s =
      c.key
      ++ (crlf
          ++ (command c.target.network ∷ (target_bytes parse_ip trim_space c.target s ++ crlf)))

  write_header_lem :
      (c : ConnWriter) (s : Sent parse_ip trim_space c.target)
      → length c.key ≡ 56
      → write_header c ≡ some (header_bytes c s)
  unfolding write_header header_bytes
  write_header_lem c s e =
      let t = target_bytes parse_ip trim_space c.target s in
      let ps = c.key ∷ crlf ∷ (command c.target.network ∷ []) ∷ t ∷ crlf ∷ [] in
      let size = length-target_bytes parse_ip trim_space c.target s in
      let fits : length (flatten ps) ≤ 8192 = omega (
        arith,
        e,
        size,
        length-append c.key (flatten (crlf ∷ (command c.target.network ∷ []) ∷ t ∷ crlf ∷ [])),
        length-append t crlf,
      ) in
      rw (write_target_lem parse_ip trim_space c.target s, write_header)
        (write_pieces_fits ps [] (omega (arith, fits)))

  parse_header_lem :
      (c : ConnWriter) (rest : List ℕ) (s : Sent parse_ip trim_space c.target)
      → length c.key ≡ 56
      → parse_header parse_ip trim_space fresh (header_bytes c s ++ rest) ≡ some (c.target, rest)
  unfolding parse_header header_bytes
  parse_header_lem c rest s e =
      let t = target_bytes parse_ip trim_space c.target s in
      let n = command c.target.network in
      let r3 = t ++ (crlf ++ rest) in
      let line =
        append_assoc c.key (crlf ++ (n ∷ (t ++ crlf))) rest
        ∙ ap (λ q. c.key ++ (crlf ++ (n ∷ q))) (append_assoc t crlf rest) in
      ap (parse_header parse_ip trim_space fresh) line
      ∙ rw
          (
            read_full_lem 56 c.key (crlf ++ (n ∷ r3)) e,
            read_full_lem 2 crlf (n ∷ r3) refl,
            read_full_lem 1 (n ∷ []) r3 refl,
            read_target_lem c.target (crlf ++ rest) s,
            read_full_lem 2 crlf rest refl,
            command_lem c.target.network s.named,
          )
          (ap (λ a. some (record c.target { address = a }, rest)) (sym s.has_address))

  -- The header of a connection with a key of 56 bytes, to an address that the wire carries over TCP
  -- or UDP, is written, and reads back as its target, with any bytes behind it.
  pub parse_header-write_header :
      (c : ConnWriter) (rest : List ℕ)
      → Sent parse_ip trim_space c.target
      → length c.key ≡ 56
      → (bs : List ℕ) × (write_header c ≡ some bs)
        × (parse_header parse_ip trim_space fresh (bs ++ rest) ≡ some (c.target, rest))
  parse_header-write_header c rest s e =
      (header_bytes c s, write_header_lem c s e, parse_header_lem c rest s e)

  packet_parts : List ℕ → (d : Destination) → Sent parse_ip trim_space d → List (List ℕ)
  packet_parts payload d s =
      target_bytes parse_ip trim_space d s ∷ put_u16 (u16 (length payload)) ∷ crlf ∷ payload ∷ []
