-- ===== src/Tests/Frames.antt =====
-- Frames of sessions at concrete inputs.
use xray_core_python.Prelude.{
  inr, All, true, ℕ, ◌≡◌, refl, Option, none, some, List, [], ◌∷◌, length, arith,
}
use xray_core_python.Buf.{Buffer, from_bytes, zeros}
use xray_core_python.Buf.Slices.{IsValid, length-zeros}
use xray_core_python.Buf.Multi.Content.{multi_bytes}
use xray_core_python.Address.{ipv4}
use xray_core_python.Mux.Frame.{
  status_new, status_keep, Destination, FrameMetadata, network_udp, no_metadata,
}
use xray_core_python.Mux.Frame.Parts.{Sent}
use xray_core_python.Mux.Writer.{Writer, new_writer, write_multi_buffer, read_frames}
use xray_core_python.Mux.Writer.Framed.{IsRun, payloads, IsReady}
use xray_core_python.Mux.Writer.Stream.{read_frames-write_stream}

-- No text is an IP, and no space is taken off.
abbrev no_ip : List ℕ → Option (List ℕ)
no_ip s = none

abbrev same_text : List ℕ → List ℕ
same_text s = s

abbrev fresh : ℕ → List ℕ
fresh k = zeros 8192

fresh_sized : (k : ℕ) → length (fresh k) ≡ 8192
fresh_sized k = length-zeros 8192

abbrev server : Destination
server = record { network = network_udp; address = some (ipv4 (1 ∷ 1 ∷ 1 ∷ 1 ∷ [])); port = 53 }

server-Sent : Sent no_ip same_text server
server-Sent = record {
  named = refl;
  at = ipv4 (1 ∷ 1 ∷ 1 ∷ 1 ∷ []);
  has_address = refl;
  plain = refl;
  word = omega arith;
}

-- A packet to a server, with a global id.
abbrev frame : FrameMetadata
frame = record no_metadata {
  target = server;
  session_id = 300;
  session_status = status_new;
  option = 1;
  global_id = 1 ∷ 2 ∷ 3 ∷ 4 ∷ 5 ∷ 6 ∷ 7 ∷ 8 ∷ [];
}

abbrev followup : FrameMetadata
followup = record no_metadata { session_id = 300; session_status = status_keep; option = 1 }

abbrev pool : List ℕ
pool = zeros 8192

abbrev stream : List Buffer
stream = from_bytes (1 ∷ 2 ∷ 3 ∷ []) ∷ from_bytes [] ∷ from_bytes (4 ∷ 5 ∷ []) ∷ []

stream-IsValid : All IsValid stream
stream-IsValid = (
  record { ordered = omega arith; inside = omega arith },
  (
    record { ordered = omega arith; inside = omega arith },
    (record { ordered = omega arith; inside = omega arith }, tt),
  ),
)

abbrev writer : Writer
writer = new_writer 300 server true (0 ∷ 0 ∷ 0 ∷ 0 ∷ 0 ∷ 0 ∷ 0 ∷ 0 ∷ []) none

writer-IsReady : IsReady no_ip same_text writer
writer-IsReady = record { word = omega arith; known = inr (refl, server-Sent, refl, refl) }

read_frames-write_stream_example :
    (w' : Writer) × (bs : List ℕ) × (frames : List (FrameMetadata × List ℕ)) × (write_multi_buffer
        pool stream writer
      ≡ (w', some bs))
    × (read_frames no_ip same_text fresh true (length bs) bs ≡ some frames)
    × (payloads frames ≡ multi_bytes stream)
    × IsRun writer frames
read_frames-write_stream_example =
    read_frames-write_stream no_ip same_text fresh fresh_sized pool stream writer
      (omega (arith, length-zeros 8192)) stream-IsValid writer-IsReady refl
