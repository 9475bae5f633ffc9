-- ===== src/Mux/Frame/Parts.antt =====
-- The parts of a frame: destinations, the addresses of a connection, the length in front.
use xray_core_python.Prelude.{
  ℕ, suc, ◌≤◌, ◌<◌, ◌≡◌, ap, refl, Bool, true, false, Option, some, List, [], ◌∷◌, ◌++◌, append-nil,
  ltb, ◌==◌, length, take-append, drop-append, length-append, arith, u16, put_u16, get_u16-put_u16,
  ◌^◌, IsU16,
}
use xray_core_python.Buf.{new_buffer}
use xray_core_python.Address.{Family, family_ipv4, family_ipv6, family_domain, Address, family}
use xray_core_python.Address.RoundTrip.{
  Knows, IsPlain, wire_port, write_address_port_lem, read_wire_port, length-body, length-wire_port,
}
use xray_core_python.Mux.Frame.{
  Network, network_unknown, network_tcp, network_udp, network_unix, Destination, Inbound,
  FrameMetadata, no_destination, addr_parser, network_bytes, is_named, network_of,
  write_destination, write_udp, port_at_least, write_inbound, parsed, refused, invalid_meta_len,
  then_parse, read_destination, read_optional, read_inbound, unmarshal_from_buffer, unmarshal,
}

pub addr_parser-Knows : (f : Family) → Knows addr_parser f
addr_parser-Knows family_ipv4 = record { plain = refl; small = omega arith; mapped = refl }
addr_parser-Knows family_ipv6 = record { plain = refl; small = omega arith; mapped = refl }
addr_parser-Knows family_domain = record { plain = refl; small = omega arith; mapped = refl }

abbrev pub network_byte : Network → ℕ
network_byte network_tcp = 1
network_byte network_udp = 2
network_byte _ = 0

pub network_lem :
    (n : Network)
    → is_named n ≡ true
    → (network_bytes n ≡ network_byte n ∷ [])
      × (network_of (network_byte n) ≡ n)
      × ((network_byte n == 0) ≡ false)
network_lem network_tcp h = (refl, refl, refl)
network_lem network_udp h = (refl, refl, refl)
network_lem network_unknown h = ground arith
network_lem network_unix h = ground arith

module _ (parse_ip : List ℕ → Option (List ℕ)) (trim_space : List ℕ → List ℕ) where
  -- A destination that a frame can carry.
  pub record Sent (d : Destination) : Type 0 where
    pub named : is_named d.network ≡ true
    pub at : Address
    pub has_address : d.address ≡ some at
    pub plain : IsPlain parse_ip trim_space at
    pub word : IsU16 d.port

  pub wire_of : (d : Destination) → Sent d → List ℕ
  wire_of d s = wire_port parse_ip trim_space addr_parser s.at d.port

  pub write_destination_lem :
      (d : Destination) (s : Sent d) → write_destination d ≡ some (wire_of d s)
  unfolding write_destination wire_of
  write_destination_lem d s = rw (s.has_address) (
      write_address_port_lem parse_ip trim_space addr_parser s.at d.port
        (addr_parser-Knows (family s.at)) s.plain)

  pub write_udp_lem : (d : Destination) (s : Sent d) → write_udp d ≡ some (2 ∷ wire_of d s)
  unfolding write_udp wire_of
  write_udp_lem d s = rw (s.has_address) (
      ap (λ t. some (2 ∷ port_at_least d.port t))
        (write_address_port_lem parse_ip trim_space addr_parser s.at d.port
          (addr_parser-Knows (family s.at)) s.plain))

  -- The byte of the network and the address.
  unfoldable pub wire_dest : (d : Destination) → Sent d → List ℕ
  wire_dest d s = network_byte d.network ∷ wire_of d s

  -- What stands in for the source and the local address of a connection.
  pub data InboundSent (i : Inbound) : Type 0 where
    nothing_known : i.source ≡ no_destination → i.local ≡ no_destination → InboundSent i
    source_known : Sent i.source → i.local ≡ no_destination → InboundSent i
    both_known : Sent i.source → Sent i.local → InboundSent i

  pub inbound_bytes : (i : Inbound) → InboundSent i → List ℕ
  inbound_bytes i (nothing_known _ _) = []
  inbound_bytes i (source_known s _) = wire_dest i.source s
  inbound_bytes i (both_known s l) = wire_dest i.source s ++ wire_dest i.local l

  pub write_inbound_lem :
      (i : Inbound) (k : InboundSent i) → write_inbound i ≡ some (inbound_bytes i k)
  unfolding write_inbound inbound_bytes wire_dest
  write_inbound_lem i (nothing_known e f) = rw (e) refl
  write_inbound_lem i (source_known s e) =
      let (n, _, _) = network_lem i.source.network s.named in
      rw (s.named, n, write_destination_lem i.source s, e) refl
  write_inbound_lem i (both_known s l) =
      let (n, _, _) = network_lem i.source.network s.named in
      let (m, _, _) = network_lem i.local.network l.named in
      rw (s.named, n, write_destination_lem i.source s, l.named, m, write_destination_lem i.local l)
        refl

  pub length-wire_dest :
      (d : Destination) (s : Sent d) → (5 ≤ length (wire_dest d s)) × (length (wire_dest d s) ≤ 260)
  unfolding wire_dest wire_of
  length-wire_dest d s =
      let e = length-wire_port parse_ip trim_space addr_parser s.at d.port in
      let h = length-body parse_ip trim_space s.at s.plain in
      (omega (arith, e, h.0), omega (arith, e, h.1))

  pub length-inbound_bytes : (i : Inbound) (k : InboundSent i) → length (inbound_bytes i k) ≤ 520
  unfolding inbound_bytes
  length-inbound_bytes i (nothing_known _ _) = omega arith
  length-inbound_bytes i (source_known s _) =
      let h = length-wire_dest i.source s in omega (arith, h.1)
  length-inbound_bytes i (both_known s l) =
      let h = length-wire_dest i.source s in
      let k = length-wire_dest i.local l in
      omega (arith, length-append (wire_dest i.source s) (wire_dest i.local l), h.1, k.1)

module _ (parse_ip : List ℕ → Option (List ℕ)) (trim_space : List ℕ → List ℕ) (fresh : ℕ → List ℕ)
    (sized : (k : ℕ) → length (fresh k) ≡ 8192) where
  pub read_destination_lem :
      (k : ℕ) (d : Destination) (rest : List ℕ) (s : Sent parse_ip trim_space d)
      → read_destination parse_ip trim_space fresh k
          (network_byte d.network)
          (wire_of parse_ip trim_space d s ++ rest)
        ≡ parsed d rest
  unfolding read_destination wire_of
  read_destination_lem k d rest s =
      let size = length-body parse_ip trim_space s.at s.plain in
      let (b', e) =
        read_wire_port parse_ip trim_space addr_parser s.at d.port rest (new_buffer (fresh k))
          (addr_parser-Knows (family s.at)) s.plain s.word
          (record {
            valid = record { ordered = omega arith; inside = omega arith };
            has_room = omega (arith, sized k, size.1);
          }) in
      let (_, f, _) = network_lem d.network s.named in rw (e, f, s.named, s.has_address) refl

  read_optional_lem :
      (k : ℕ) (d : Destination) (rest : List ℕ) (s : Sent parse_ip trim_space d)
      → read_optional parse_ip trim_space fresh k (wire_dest parse_ip trim_space d s ++ rest)
        ≡ parsed (some d) rest
  unfolding read_optional wire_dest
  read_optional_lem k d rest s =
      let (_, _, f) = network_lem d.network s.named in rw (f, read_destination_lem k d rest s) refl

  pub read_inbound_lem :
      (i : Inbound) (k : InboundSent parse_ip trim_space i)
      → read_inbound parse_ip trim_space fresh (inbound_bytes parse_ip trim_space i k) ≡ parsed i []
  unfolding read_inbound inbound_bytes read_optional
  read_inbound_lem i (nothing_known e f) = rw (e, f) refl
  read_inbound_lem i (source_known s e) =
      rw
        (
          ← append-nil (wire_dest parse_ip trim_space i.source s),
          read_optional_lem 1 i.source [] s,
          e,
          read_optional,
        )
        refl
  read_inbound_lem i (both_known s l) =
      rw
        (
          read_optional_lem 1 i.source (wire_dest parse_ip trim_space i.local l) s,
          ← append-nil (wire_dest parse_ip trim_space i.local l),
          read_optional_lem 2 i.local [] l,
        )
        refl

  -- Metadata in a frame, and how much of the frame is left to read.
  pub unmarshal_lem :
      (r : Bool) (meta rest : List ℕ) (f0 : FrameMetadata)
      → length meta ≤ 512
      → unmarshal parse_ip trim_space fresh r (put_u16 (u16 (length meta)) ++ (meta ++ rest)) f0
        ≡ then_parse
            (unmarshal_from_buffer parse_ip trim_space fresh r meta f0)
            (λ g _. parsed g rest)
  unfolding unmarshal
  unmarshal_lem r meta rest f0 h =
      let n : u16 (length meta) ≡ length meta = omega (arith, h) in
      let w = get_u16-put_u16 (length meta) (meta ++ rest) (omega (arith, h)) in
      let f : ltb 512 (length meta) ≡ false = ground (arith, h) in
      let g : ltb (length (meta ++ rest)) (length meta) ≡ false =
        ground (arith, length-append meta rest) in
      let t : ltb (suc (suc (length (meta ++ rest)))) 2 ≡ false = ground arith in
      rw
        (
          t,
          n,
          w,
          f,
          g,
          take-append (length meta) meta rest refl,
          drop-append (length meta) meta rest refl,
        )
        refl

  pub unmarshal_long :
      (r : Bool) (meta rest : List ℕ) (f0 : FrameMetadata)
      → 512 < length meta
      → length meta < 2 ^ 16
      → unmarshal parse_ip trim_space fresh r (put_u16 (u16 (length meta)) ++ (meta ++ rest)) f0
        ≡ refused invalid_meta_len
  unfolding unmarshal
  unmarshal_long r meta rest f0 h l =
      let n : u16 (length meta) ≡ length meta = omega (arith, l) in
      let w = get_u16-put_u16 (length meta) (meta ++ rest) (omega (arith, l)) in
      let f : ltb 512 (length meta) ≡ true = ground (arith, h) in
      let t : ltb (suc (suc (length (meta ++ rest)))) 2 ≡ false = ground arith in
      rw (t, n, w, f) refl
