-- ===== src/Tests/Tunnels.antt =====
-- Trojan connections at concrete inputs.
use xray_core_python.Prelude.{ℕ, ◌≡◌, refl, false, Option, none, some, List, [], ◌∷◌, ◌++◌, arith}
use xray_core_python.Buf.{zeros}
use xray_core_python.Buf.Slices.{length-zeros}
use xray_core_python.Address.{ipv4}
use xray_core_python.Mux.Frame.{Destination, network_udp}
use xray_core_python.Mux.Frame.Parts.{Sent}
use xray_core_python.Trojan.{ConnWriter, write_header, parse_header}
use xray_core_python.Trojan.RoundTrip.{parse_header-write_header}

-- No text is an IP, and no space is taken off.
abbrev no_ip : List ℕ → Option (List ℕ)
no_ip s = none

abbrev same_text : List ℕ → List ℕ
same_text s = s

abbrev fresh : List ℕ
fresh = zeros 8192

abbrev server : Destination
server = record { network = network_udp; address = some (ipv4 (1 ∷ 1 ∷ 1 ∷ 1 ∷ [])); port = 53 }

server-Sent : Sent no_ip same_text server
server-Sent = record {
  named = refl;
  at = ipv4 (1 ∷ 1 ∷ 1 ∷ 1 ∷ []);
  has_address = refl;
  plain = refl;
  word = omega arith;
}

abbrev conn : ConnWriter
conn = record { target = server; key = zeros 56; header_sent = false }

parse_header-write_header_example :
    (bs : List ℕ) × (write_header conn ≡ some bs)
    × (parse_header no_ip same_text fresh (bs ++ (7 ∷ [])) ≡ some (server, 7 ∷ []))
parse_header-write_header_example =
    parse_header-write_header no_ip same_text fresh (length-zeros 8192) conn (7 ∷ []) server-Sent
      (length-zeros 56)

abbrev payload : List ℕ
payload = 1 ∷ 2 ∷ 3 ∷ []
