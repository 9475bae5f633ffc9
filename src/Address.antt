-- ===== src/Address.antt =====
-- xray-go/common/protocol/address.go with common/net/address.go: addresses with a port on the wire. A
-- domain is the list of its bytes. `net.ParseIP` and `strings.TrimSpace` of Go's library are
-- parameters.
pub mod Reading
pub mod RoundTrip
pub mod LongDomain
use xray_core_python.Prelude.{
  same_bytes, ℕ, zero, suc, ◌+◌, ◌-◌, ◌≡◌, Bool, true, false, ◌&&◌, ◌||◌, not, Option, none, some,
  List, [], ◌∷◌, ◌++◌, ltb, leb, ◌==◌, if◌then◌else◌, length, get_or, take, drop, put_u16, get_u16,
  u8,
}
use xray_core_python.Buf.{
  Buffer, Position, from_start, from_end, len, byte, bytes_from, Filled, filled, end_of_input,
  out_of_bound, read_full_from,
}

pub data Family : Type 0 where
  family_ipv4 family_ipv6 family_domain : Family

pub data Address : Type 0 where
  ipv4 ipv6 domain : List ℕ → Address

abbrev pub family : Address → Family
family (ipv4 ip) = family_ipv4
family (ipv6 ip) = family_ipv6
family (domain d) = family_domain

-- `bytes0`, and the two bytes that make an address of 16 bytes one of IPv4.
abbrev pub mapped_prefix : List ℕ
mapped_prefix = 0 ∷ 0 ∷ 0 ∷ 0 ∷ 0 ∷ 0 ∷ 0 ∷ 0 ∷ 0 ∷ 0 ∷ 255 ∷ 255 ∷ []

-- `IPAddress`; `none` is a nil address.
unfoldable pub ip_address : List ℕ → Option Address
ip_address ip =
    if length ip == 4
    then some (ipv4 ip)
    else (if length ip == 16
        then (if same_bytes (take 12 ip) mapped_prefix
            then some (ipv4 (drop 12 ip))
            else some (ipv6 ip))
        else none)

abbrev pub is_digit : ℕ → Bool
is_digit c = leb b'0' c && leb c b'9'

abbrev pub is_alpha_num : ℕ → Bool
is_alpha_num c = is_digit c || (leb b'a' c && leb c b'z') || (leb b'A' c && leb c b'Z')

abbrev pub last_or : List ℕ → ℕ → ℕ
last_or [] d = d
last_or (x ∷ xs) d = last_or xs x

-- The brackets of an IPv6 address are taken off.
abbrev pub without_brackets : List ℕ → List ℕ
without_brackets a =
    if ltb 1 (length a) && get_or a 0 0 == b'[' && last_or a 0 == b']'
    then take (length a - 2) (drop 1 a)
    else a

unfoldable pub maybe_ip_prefix : ℕ → Bool
maybe_ip_prefix c = c == b'[' || is_digit c

abbrev pub is_domain_byte : ℕ → Bool
is_domain_byte c = is_alpha_num c || c == b'-' || c == b'.' || c == b'_'

unfoldable pub is_valid_domain : List ℕ → Bool
is_valid_domain [] = true
is_valid_domain (c ∷ d) = if is_domain_byte c then is_valid_domain d else false

unfoldable pub is_domain_too_long : List ℕ → Bool
is_domain_too_long d = ltb 256 (length d)

-- The maps of the parser: `none` and 255 are `afInvalid`.
pub record AddressParser : Type 0 where
  pub addr_type_map : ℕ → Option Family
  pub addr_byte_map : Family → ℕ
  pub type_parser : Option (ℕ → ℕ)
  pub port_first : Bool

pub data AddressOption : Type 0 where
  port_then_address : AddressOption
  address_family_byte : ℕ → Family → AddressOption
  with_address_type_parser : (ℕ → ℕ) → AddressOption

abbrev pub same_family : Family → Family → Bool
same_family family_ipv4 family_ipv4 = true
same_family family_ipv6 family_ipv6 = true
same_family family_domain family_domain = true
same_family _ _ = false

-- `none` is the panic at a byte of 16 or more.
abbrev pub apply_option : AddressOption → AddressParser → Option AddressParser
apply_option port_then_address p = some (record p { port_first = true })
apply_option (address_family_byte b f) p =
    if leb 16 b
    then none
    else some (record p {
      addr_type_map = λ i. if i == b then some f else p.addr_type_map i;
      addr_byte_map = λ g. if same_family g f then b else p.addr_byte_map g;
    })
apply_option (with_address_type_parser g) p = some (record p { type_parser = some g })

abbrev pub apply_options : List AddressOption → AddressParser → Option AddressParser
apply_options [] p = some p
apply_options (o ∷ os) p = elim (apply_option o p) [ none ↦ none | some p' ↦ apply_options os p' ]

abbrev pub new_address_parser : List AddressOption → Option AddressParser
new_address_parser os = apply_options os (record {
  addr_type_map = λ i. none;
  addr_byte_map = λ f. 255;
  type_parser = none;
  port_first = false;
})

-- What stops a reader. The last is an index of Go out of its bounds.
pub data ReadError : Type 0 where
  short_input no_room unknown_type invalid_domain no_address panicked : ReadError

-- A value, the buffer that was read into, and what is left of the input.
pub data Read (A : Type 0) : Type 0 where
  ok : A → Buffer → List ℕ → Read A
  failed : ReadError → Read A

abbrev pub then_read : {A B : Type 0} → Read A → (A → Buffer → List ℕ → Read B) → Read B
then_read (ok a b input) f = f a b input
then_read (failed e) f = failed e

abbrev pub checked : {A : Type 0} → Filled → Option A → Buffer → List ℕ → Read A
checked filled (some a) b input = ok a b input
checked filled none b input = failed panicked
checked end_of_input _ b input = failed short_input
checked out_of_bound _ b input = failed no_room

-- `BytesFrom(-n)`: where `n` is 0 that is the whole content.
abbrev pub last_bytes : ℕ → Buffer → Option (List ℕ)
last_bytes zero b = bytes_from (from_start 0) b
last_bytes (suc n) b = bytes_from (from_end (suc n)) b

-- `ReadFullFrom` and then the last bytes of the buffer.
unfoldable pub read_last : ℕ → Buffer → List ℕ → Read (List ℕ)
read_last n b input = elim (read_full_from n input b) [
  | none ↦ failed panicked
  | some out ↦ let (b', rest, count, r) = out in checked r (last_bytes n b') b' rest
]

-- `ReadFullFrom` one byte, and then `Byte(Len() - 1)`.
unfoldable pub read_last_byte : Buffer → List ℕ → Read ℕ
read_last_byte b input = elim (read_full_from 1 input b) [
  | none ↦ failed panicked
  | some out ↦ let (b', rest, count, r) = out in checked r (byte (len b' - 1) b') b' rest
]

unfoldable pub read_port : Buffer → List ℕ → Read ℕ
read_port b input = then_read (read_last 2 b input) (λ bs b' rest. ok (get_u16 bs) b' rest)

abbrev pub or_nil : Option Address → Buffer → List ℕ → Read Address
or_nil none b input = failed no_address
or_nil (some a) b input = ok a b input

abbrev pub parsed_type : AddressParser → ℕ → ℕ
parsed_type p t = elim p.type_parser [ none ↦ t | some g ↦ g t ]

module _ (parse_ip : List ℕ → Option (List ℕ)) (trim_space : List ℕ → List ℕ) where
  abbrev pub trimmed : List ℕ → List ℕ
  trimmed a =
      if ltb 0 (length a) && (not (is_alpha_num (get_or a 0 0)) || not (is_alpha_num (last_or a 0)))
      then trim_space a
      else a

  unfoldable pub parse_address : List ℕ → Option Address
  parse_address addr =
      let a = trimmed (without_brackets addr) in
      elim (parse_ip a) [ none ↦ some (domain a) | some ip ↦ ip_address ip ]

  -- An address of a domain, unless it is one of an IP; `none` is a nil address, whose use panics.
  abbrev pub ip_or_domain : List ℕ → Option Address → Buffer → List ℕ → Read Address
  ip_or_domain d none b input = failed panicked
  ip_or_domain d (some (ipv4 ip)) b input = ok (ipv4 ip) b input
  ip_or_domain d (some (ipv6 ip)) b input = ok (ipv6 ip) b input
  ip_or_domain d (some (domain a)) b input =
      if is_valid_domain d then ok (domain d) b input else failed invalid_domain

  unfoldable pub as_domain : List ℕ → Buffer → List ℕ → Read Address
  as_domain d b input =
      if maybe_ip_prefix (get_or d 0 0)
      then ip_or_domain d (parse_address d) b input
      else (if is_valid_domain d then ok (domain d) b input else failed invalid_domain)

  unfoldable pub read_family : Option Family → Buffer → List ℕ → Read Address
  unfolding as_domain
  read_family none b input = failed unknown_type
  read_family (some family_ipv4) b input =
      then_read (read_last 4 b input) (λ ip b' rest. or_nil (ip_address ip) b' rest)
  read_family (some family_ipv6) b input =
      then_read (read_last 16 b input) (λ ip b' rest. or_nil (ip_address ip) b' rest)
  read_family (some family_domain) b input =
      then_read (read_last_byte b input)
        (λ n b' rest. then_read (read_last n b' rest) (λ d b'' rest'. as_domain d b'' rest'))

  unfoldable pub read_address : AddressParser → Buffer → List ℕ → Read Address
  unfolding read_family
  read_address p b input = then_read (read_last_byte b input) (λ t b' rest.
      let t' = parsed_type p t in
      if leb 16 t' then failed unknown_type else read_family (p.addr_type_map t') b' rest)

  -- `ReadAddressPort` of both parsers.
  unfoldable pub read_address_port : AddressParser → Buffer → List ℕ → Read (Address × ℕ)
  unfolding read_address
  read_address_port p b input =
      if p.port_first
      then then_read (read_port b input) (λ port b' rest.
        then_read (read_address p b' rest) (λ a b'' rest'. ok (a, port) b'' rest'))
      else then_read (read_address p b input)
          (λ a b' rest. then_read (read_port b' rest) (λ port b'' rest'. ok (a, port) b'' rest'))

-- The bytes that `writeAddress` writes; `none` is an error.
unfoldable pub write_address : AddressParser → Address → Option (List ℕ)
write_address p a =
    let tb = p.addr_byte_map (family a) in
    if tb == 255 then none else elim a [
      | ipv4 ip ↦ some (tb ∷ ip)
      | ipv6 ip ↦ some (tb ∷ ip)
      | domain d ↦ if is_domain_too_long d then none else some (tb ∷ u8 (length d) ∷ d)
    ]

unfoldable pub write_address_port : AddressParser → Address → ℕ → Option (List ℕ)
unfolding write_address
write_address_port p a port = elim (write_address p a) [
  | none ↦ none
  | some bs ↦ some (if p.port_first then put_u16 port ++ bs else bs ++ put_u16 port)
]
