-- ===== src/Trojan.antt =====
-- xray-go/proxy/trojan/protocol.go: the header of a connection and the packets of a UDP connection.
-- What is written is the list of its bytes, and the connection takes them all. `none` is an error.
pub mod Buffered
pub mod RoundTrip
use xray_core_python.Prelude.{
  ℕ, zero, suc, ◌+◌, ◌-◌, ◌≡◌, min, Bool, true, false, Option, none, some, List, [], ◌∷◌, ◌++◌, ltb,
  ◌==◌, if◌then◌else◌, length, take, drop, put_u16, get_u16, get_or, u16,
}
use xray_core_python.Buf.{Buffer, is_empty, bytes, regular_size, new_buffer}
use xray_core_python.Address.{
  family_ipv4, family_ipv6, family_domain, Address, AddressParser, address_family_byte,
  new_address_parser, Read, ok, failed, read_address_port, write_address_port,
}
use xray_core_python.Mux.Frame.{Network, network_tcp, network_udp, Destination, made_parser, is_udp}

abbrev pub crlf : List ℕ
crlf = 13 ∷ 10 ∷ []

abbrev pub addr_parser : AddressParser
addr_parser = made_parser (
    new_address_parser (
      address_family_byte 1 family_ipv4
      ∷ address_family_byte 4 family_ipv6
      ∷ address_family_byte 3 family_domain
      ∷ []))

abbrev pub max_length : ℕ
max_length = 8192

abbrev pub command_tcp : ℕ
command_tcp = 1

abbrev pub command_udp : ℕ
command_udp = 3

-- Writes into a buffer of `StackNew` that has some content: a write that does not fit is an error.
unfoldable pub write_pieces : List (List ℕ) → List ℕ → Option (List ℕ)
write_pieces [] content = some content
write_pieces (p ∷ ps) content =
    if ltb regular_size (length content + length p) then none else write_pieces ps (content ++ p)

-- `WriteAddressPort`; `none` is its error, and the panic at a nil address.
unfoldable pub write_target : Destination → Option (List ℕ)
write_target d = elim d.address [ none ↦ none | some a ↦ write_address_port addr_parser a d.port ]

pub record ConnWriter : Type 0 where
  pub target : Destination
  pub key : List ℕ
  pub header_sent : Bool

abbrev pub command : Network → ℕ
command n = if is_udp n then command_udp else command_tcp

unfoldable pub write_header : ConnWriter → Option (List ℕ)
write_header c = elim (write_target c.target) [
  | none ↦ none
  | some a ↦ write_pieces (c.key ∷ crlf ∷ (command c.target.network ∷ []) ∷ a ∷ crlf ∷ []) []
]

-- `Write`
unfoldable pub conn_write : List ℕ → ConnWriter → ConnWriter × Option (List ℕ)
conn_write p c = if c.header_sent then (c, some p) else elim (write_header c) [
  | none ↦ (c, none)
  | some h ↦ (record c { header_sent = true }, some (h ++ p))
]

abbrev pub then_write :
    ConnWriter × Option (List ℕ)
    → (ConnWriter → ConnWriter × Option (List ℕ))
    → ConnWriter × Option (List ℕ)
then_write (c, none) f = (c, none)
then_write (c, some bs) f = after bs (f c)
  where
    after : List ℕ → ConnWriter × Option (List ℕ) → ConnWriter × Option (List ℕ)
    after bs (c, none) = (c, none)
    after bs (c, some more) = (c, some (bs ++ more))

-- `WriteMultiBuffer`: empty buffers are passed over.
unfoldable pub conn_write_buffers : List Buffer → ConnWriter → ConnWriter × Option (List ℕ)
unfolding conn_write
conn_write_buffers [] c = (c, some [])
conn_write_buffers (b ∷ mb) c =
    if is_empty b
    then conn_write_buffers mb c
    else then_write (conn_write (bytes b) c) (λ c'. conn_write_buffers mb c')

-- `writePacket`
unfoldable pub write_packet : List ℕ → Destination → Option (List ℕ)
write_packet payload dest = elim (write_target dest) [
  | none ↦ none
  | some a ↦ write_pieces (a ∷ put_u16 (u16 (length payload)) ∷ crlf ∷ payload ∷ []) []
]

-- `WriteMultiBuffer` of packets, each a buffer with the address it may carry.
unfoldable pub write_packets : Destination → List (Buffer × Option Destination) → Option (List ℕ)
unfolding write_packet
write_packets target [] = some []
write_packets target ((b, udp) ∷ mb) =
    let dest : Destination = elim udp [ none ↦ target | some u ↦ u ] in
    elim (write_packet (bytes b) dest) [
      | none ↦ none
      | some bs ↦ elim (write_packets target mb) [ none ↦ none | some more ↦ some (bs ++ more) ]
    ]

-- `io.ReadFull`
unfoldable pub read_full : ℕ → List ℕ → Option (List ℕ × List ℕ)
read_full n input = if ltb (length input) n then none else some (take n input, drop n input)

abbrev pub then_read : {A B : Type 0} → Option (A × List ℕ) → (A → List ℕ → Option B) → Option B
then_read none f = none
then_read (some (a, rest)) f = f a rest

-- The buffers of a payload, on fuel.
unfoldable pub read_payload : ℕ → ℕ → List ℕ → Option (List (List ℕ) × List ℕ)
read_payload zero remain input = some ([], input)
read_payload (suc fuel) remain input =
    if remain == 0
    then some ([], input)
    else let n = min remain regular_size in
      then_read (read_full n input) (λ b rest.
        then_read (read_payload fuel (remain - n) rest) (λ mb rest'. some (b ∷ mb, rest')))

module _ (parse_ip : List ℕ → Option (List ℕ)) (trim_space : List ℕ → List ℕ) (fresh : List ℕ) where
  abbrev pub succeeded : Read (Address × ℕ) → Option ((Address × ℕ) × List ℕ)
  succeeded (ok a b rest) = some (a, rest)
  succeeded (failed e) = none

  -- `ReadAddressPort` into a new buffer, which holds what the pool left there.
  unfoldable pub read_target : List ℕ → Option ((Address × ℕ) × List ℕ)
  read_target input =
      succeeded (read_address_port parse_ip trim_space addr_parser (new_buffer fresh) input)

  -- `ParseHeader`: the hash and both ends of lines are read over.
  unfoldable pub parse_header : List ℕ → Option (Destination × List ℕ)
  unfolding read_target
  parse_header input = then_read (read_full 56 input) (λ hash r1.
      then_read (read_full 2 r1) (λ line r2. then_read (read_full 1 r2) (λ c r3.
        then_read (read_target r3) (λ (a, port) r4. then_read (read_full 2 r4) (λ end r5.
          let network = if get_or c 0 0 == command_udp then network_udp else network_tcp in
          some (record { network = network; address = some a; port = port }, r5))))))

  -- `ReadMultiBuffer` of packets: where it came from, and the buffers of its payload.
  unfoldable pub read_packet : List ℕ → Option ((Destination × List (List ℕ)) × List ℕ)
  unfolding read_target
  read_packet input = then_read (read_target input) (λ (a, port) r1.
      then_read (read_full 2 r1) (λ size r2.
        let remain = get_u16 size in
        if ltb max_length remain
        then none
        else then_read (read_full 2 r2) (λ line r3.
          then_read (read_payload remain remain r3) (λ mb r4.
            some ((record { network = network_udp; address = some a; port = port }, mb), r4)))))
