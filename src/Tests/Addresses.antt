-- ===== src/Tests/Addresses.antt =====
-- Addresses on the wire at concrete inputs.
use xray_core_python.Prelude.{
  ℕ, zero, suc, ◌≡◌, refl, inl, ap, Option, none, some, List, [], ◌∷◌, ◌++◌, length, arith,
}
use xray_core_python.Buf.{Buffer, new_buffer, zeros}
use xray_core_python.Buf.Slices.{length-zeros}
use xray_core_python.Address.{
  domain, family_domain, ok, failed, invalid_domain, read_address, is_valid_domain, maybe_ip_prefix,
  read_address_port, write_address, write_address_port,
}
use xray_core_python.Address.Reading.{Fits}
use xray_core_python.Address.RoundTrip.{Knows, IsPlain, read_address_port-write}
use xray_core_python.Address.LongDomain.{read_address-write_long}
use xray_core_python.Mux.Frame.{addr_parser}

-- No text is an IP, and no space is taken off.
abbrev no_ip : List ℕ → Option (List ℕ)
no_ip s = none

abbrev same_text : List ℕ → List ℕ
same_text s = s

abbrev room : Buffer
room = new_buffer (zeros 300)

room-Fits : Fits 8 room
room-Fits = record {
  valid = record { ordered = omega arith; inside = omega arith };
  has_room = omega (arith, length-zeros 300);
}

-- The address `a.io`.
abbrev site : List ℕ
site = b'a' ∷ b'.' ∷ b'i' ∷ b'o' ∷ []

site-IsPlain : IsPlain no_ip same_text (domain site)
unfolding is_valid_domain maybe_ip_prefix
site-IsPlain = (omega arith, omega arith, refl, inl refl)

abbrev knows_domains : Knows addr_parser family_domain
knows_domains = record { plain = refl; small = omega arith; mapped = refl }

read_address_port-write_example :
    (bs : List ℕ) × (b' : Buffer) × (write_address_port addr_parser (domain site) 443 ≡ some bs)
    × (read_address_port no_ip same_text addr_parser room (bs ++ (7 ∷ []))
        ≡ ok (domain site, 443) b' (7 ∷ []))
read_address_port-write_example =
    read_address_port-write no_ip same_text addr_parser (domain site) 443 (7 ∷ []) room
      knows_domains site-IsPlain (omega arith) room-Fits

-- 256 letters.
abbrev letters : ℕ → List ℕ
letters zero = []
letters (suc n) = b'a' ∷ letters n

length-letters : (n : ℕ) → length (letters n) ≡ n
length-letters zero = refl
length-letters (suc n) = ap suc (length-letters n)

read_address-write_long_example :
    (write_address addr_parser (domain (letters 256))
      ≡ some (addr_parser.addr_byte_map family_domain ∷ 0 ∷ letters 256))
    × (read_address no_ip same_text addr_parser
          (new_buffer (zeros 8))
          (addr_parser.addr_byte_map family_domain ∷ 0 ∷ (letters 256 ++ []))
        ≡ failed invalid_domain)
read_address-write_long_example =
    read_address-write_long no_ip same_text addr_parser (letters 256) [] (new_buffer (zeros 8))
      knows_domains (length-letters 256)
      (record {
        valid = record { ordered = omega arith; inside = omega arith };
        has_room = omega (arith, length-zeros 8);
      })
      refl
