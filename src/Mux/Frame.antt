-- ===== src/Mux/Frame.antt =====
-- xray-go/common/mux/frame.go: the metadata in front of the data of a session. A frame is the list of
-- its bytes; a buffer of 8192 bytes has room for every one. A slice of the pool of common/buf holds
-- what it happens to hold: a parameter. What stands for a panic is said at each definition.
pub mod Parts
pub mod Meta
pub mod RoundTrip
pub mod Followup
use xray_core_python.Prelude.{
  ℕ, zero, suc, ◌+◌, ◌*◌, ◌/◌, ◌%◌, ◌≡◌, Bool, true, false, ◌&&◌, ◌||◌, Option, none, some, List,
  [], ◌∷◌, ◌++◌, ltb, leb, ◌==◌, if◌then◌else◌, length, get_or, take, drop, u8, u16, put_u16,
  get_u16,
}
use xray_core_python.Buf.{new_buffer}
use xray_core_python.Address.{
  family_ipv4, family_ipv6, family_domain, Address, AddressParser, AddressOption, port_then_address,
  address_family_byte, new_address_parser, ReadError, Read, ok, failed, read_address_port,
  write_address_port,
}

abbrev pub status_new : ℕ
status_new = 1

abbrev pub status_keep : ℕ
status_keep = 2

abbrev pub status_end : ℕ
status_end = 3

abbrev pub status_keep_alive : ℕ
status_keep_alive = 4

-- `Has(OptionData)`
abbrev pub has_data : ℕ → Bool
has_data o = o % 2 == 1

-- `Option.Set` of OptionData and of OptionError.
abbrev pub set_data : ℕ → ℕ
set_data o = if o % 2 == 1 then o else o + 1

abbrev pub set_error : ℕ → ℕ
set_error o = if (o / 2) % 2 == 1 then o else o + 2

pub data Network : Type 0 where
  network_unknown network_tcp network_udp network_unix : Network

-- A nil address is `none`.
pub record Destination : Type 0 where
  pub network : Network
  pub address : Option Address
  pub port : ℕ

pub record Inbound : Type 0 where
  pub source : Destination
  pub local : Destination

pub record FrameMetadata : Type 0 where
  pub target : Destination
  pub session_id : ℕ
  pub option : ℕ
  pub session_status : ℕ
  pub global_id : List ℕ
  pub inbound : Option Inbound

abbrev pub no_destination : Destination
no_destination = record { network = network_unknown; address = none; port = 0 }

-- `var meta FrameMetadata`
abbrev pub no_metadata : FrameMetadata
no_metadata = record {
  target = no_destination;
  session_id = 0;
  option = 0;
  session_status = 0;
  global_id = 0 ∷ 0 ∷ 0 ∷ 0 ∷ 0 ∷ 0 ∷ 0 ∷ 0 ∷ [];
  inbound = none;
}

abbrev pub made_parser : Option AddressParser → AddressParser
made_parser none = record {
  addr_type_map = λ i. none;
  addr_byte_map = λ f. 255;
  type_parser = none;
  port_first = false;
}
made_parser (some p) = p

abbrev pub addr_parser : AddressParser
addr_parser = made_parser (
    new_address_parser (
      address_family_byte 1 family_ipv4
      ∷ address_family_byte 2 family_domain
      ∷ address_family_byte 3 family_ipv6
      ∷ port_then_address
      ∷ []))

-- The byte of a network that a frame can name, of both `TargetNetwork` and `Network - 1`.
abbrev pub network_bytes : Network → List ℕ
network_bytes network_tcp = 1 ∷ []
network_bytes network_udp = 2 ∷ []
network_bytes _ = []

abbrev pub is_named : Network → Bool
is_named network_tcp = true
is_named network_udp = true
is_named _ = false

-- `WriteAddressPort`; `none` is its error, and the panic at a nil address.
unfoldable pub write_destination : Destination → Option (List ℕ)
write_destination d = elim d.address [
  | none ↦ none
  | some a ↦ write_address_port addr_parser a d.port
]

abbrev pub then_write : Option (List ℕ) → (List ℕ → Option (List ℕ)) → Option (List ℕ)
then_write none f = none
then_write (some bs) f = f bs

abbrev pub after : List ℕ → Option (List ℕ) → Option (List ℕ)
after bs none = none
after bs (some cs) = some (bs ++ cs)

-- The source, and the local address behind it.
unfoldable pub write_inbound : Inbound → Option (List ℕ)
write_inbound i =
    if is_named i.source.network
    then after (network_bytes i.source.network) (
        then_write (write_destination i.source) (λ bs.
          if is_named i.local.network
          then after bs (after (network_bytes i.local.network) (write_destination i.local))
          else some bs))
    else some []

abbrev pub write_origin : FrameMetadata → Option Destination → Option (List ℕ)
write_origin f udp = elim f.inbound [
  | some i ↦ write_inbound i
  | none ↦ elim udp [ none ↦ some [] | some u ↦ some f.global_id ]
]

-- The port is written before an error of the address.
abbrev pub port_at_least : ℕ → Option (List ℕ) → List ℕ
port_at_least port none = put_u16 port
port_at_least port (some bs) = bs

-- An error of `WriteAddressPort` is not looked at here; `none` is the panic at a nil address.
unfoldable pub write_udp : Destination → Option (List ℕ)
write_udp u = elim u.address [
  | none ↦ none
  | some a ↦ some (2 ∷ port_at_least u.port (write_address_port addr_parser a u.port))
]

unfoldable pub write_tail : FrameMetadata → Option Destination → Option (List ℕ)
write_tail f udp =
    if f.session_status == status_new
    then then_write (write_destination f.target)
        (λ bs. after (network_bytes f.target.network ++ bs) (write_origin f udp))
    else elim udp [ none ↦ some [] | some u ↦ write_udp u ]

-- `WriteTo` a buffer whose `UDP` is the second argument: the bytes that it appends.
unfoldable pub write_to : FrameMetadata → Option Destination → Option (List ℕ)
write_to f udp = then_write (write_tail f udp) (λ tail.
    let meta = put_u16 f.session_id ++ (u8 f.session_status ∷ u8 f.option ∷ tail) in
    some (put_u16 (u16 (length meta)) ++ meta))

pub data FrameError : Type 0 where
  short_frame invalid_meta_len insufficient_buffer unknown_network packet_too_large : FrameError
  bad_address : ReadError → FrameError

-- What was read, and what is left; a panic of the address parser is a `bad_address`.
pub data Parsed (A : Type 0) : Type 0 where
  parsed : A → List ℕ → Parsed A
  refused : FrameError → Parsed A

abbrev pub then_parse : {A B : Type 0} → Parsed A → (A → List ℕ → Parsed B) → Parsed B
then_parse (parsed a rest) f = f a rest
then_parse (refused e) f = refused e

abbrev pub network_of : ℕ → Network
network_of b = if b == 1 then network_tcp else (if b == 2 then network_udp else network_unknown)

-- `TCPDestination` and `UDPDestination`, and the error of the default case.
abbrev pub with_network : ℕ → Read (Address × ℕ) → Parsed Destination
with_network network (ok (a, port) b rest) =
    if is_named (network_of network)
    then parsed (record { network = network_of network; address = some a; port = port }) rest
    else refused unknown_network
with_network network (failed e) = refused (bad_address e)

abbrev pub is_udp : Network → Bool
is_udp network_udp = true
is_udp _ = false

abbrev pub has_target : List ℕ → ℕ → Bool
has_target b status =
    status == status_new || (status == status_keep && ltb 4 (length b) && get_or b 4 0 == 2)

module _ (parse_ip : List ℕ → Option (List ℕ)) (trim_space : List ℕ → List ℕ)
    (fresh : ℕ → List ℕ) where
  -- A byte of a network and then an address, into the slice `fresh k` of the pool.
  unfoldable pub read_destination : ℕ → ℕ → List ℕ → Parsed Destination
  read_destination k network input =
      with_network network
        (read_address_port parse_ip trim_space addr_parser (new_buffer (fresh k)) input)

  -- A destination that may be missing: no byte, or 0 as the byte of its network.
  unfoldable pub read_optional : ℕ → List ℕ → Parsed (Option Destination)
  unfolding read_destination
  read_optional k [] = parsed none []
  read_optional k (network ∷ input) =
      if network == 0
      then parsed none (network ∷ input)
      else then_parse (read_destination k network input) (λ d rest. parsed (some d) rest)

  unfoldable pub read_inbound : List ℕ → Parsed Inbound
  read_inbound input = then_parse (read_optional 1 input) (λ s rest. elim s [
    | none ↦ parsed (record { source = no_destination; local = no_destination }) rest
    | some source ↦ then_parse (read_optional 2 rest) (λ l rest'. elim l [
      | none ↦ parsed (record { source = source; local = no_destination }) rest'
      | some local ↦ parsed (record { source = source; local = local }) rest'
    ])
  ])

  unfoldable pub read_target : List ℕ → FrameMetadata → Parsed FrameMetadata
  read_target b f =
      if has_target b f.session_status
      then (if ltb (length b) 8
          then refused insufficient_buffer
          else then_parse (read_destination 0 (get_or b 4 0) (drop 5 b))
              (λ d rest. parsed (record f { target = d }) rest))
      else parsed f b

  unfoldable pub read_origin : Bool → FrameMetadata → List ℕ → Parsed FrameMetadata
  read_origin read_source_and_local f b =
      if f.session_status == status_new && read_source_and_local
      then then_parse (read_inbound b) (λ i rest. parsed (record f { inbound = some i }) rest)
      else (if f.session_status == status_new
            && has_data f.option
            && is_udp f.target.network
            && leb 8 (length b)
          then parsed (record f { global_id = take 8 b }) b
          else parsed f b)

  -- `UnmarshalFromBuffer`, on metadata that may have been used before.
  unfoldable pub unmarshal_from_buffer : Bool → List ℕ → FrameMetadata → Parsed FrameMetadata
  unmarshal_from_buffer read_source_and_local b f =
      if ltb (length b) 4
      then refused insufficient_buffer
      else then_parse
          (read_target b (record f {
            session_id = get_u16 b;
            session_status = get_or b 2 0;
            option = get_or b 3 0;
            target = record f.target { network = network_unknown };
          }))
          (λ g rest. read_origin read_source_and_local g rest)

  -- `Unmarshal`: what is left of the metadata is dropped.
  unfoldable pub unmarshal : Bool → List ℕ → FrameMetadata → Parsed FrameMetadata
  unmarshal read_source_and_local input f =
      if ltb (length input) 2
      then refused short_frame
      else let meta_len = get_u16 input in
        let rest = drop 2 input in
        if ltb 512 meta_len
        then refused invalid_meta_len
        else (if ltb (length rest) meta_len
            then refused short_frame
            else then_parse (unmarshal_from_buffer read_source_and_local (take meta_len rest) f)
                (λ g _. parsed g (drop meta_len rest)))
