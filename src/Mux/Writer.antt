-- ===== src/Mux/Writer.antt =====
-- xray-go/common/mux/writer.go: the frames of a session, and how xray-go/common/mux/reader.go and
-- server.go take them apart again. What a writer writes is the list of the bytes that it hands to the
-- connection, which takes them all. `none` is an error of `WriteTo`, on which a write stops.
pub mod Framed
pub mod Stream
use xray_core_python.Prelude.{
  ℕ, zero, suc, ◌+◌, ◌≡◌, Bool, true, false, not, Option, none, some, List, [], ◌∷◌, ◌++◌, ltb,
  ◌&&◌, if◌then◌else◌, length, take, drop, put_u16, get_u16, u16,
}
use xray_core_python.Buf.{Buffer, len, is_empty, bytes, regular_size}
use xray_core_python.Buf.Multi.{split_size}
use xray_core_python.Buf.Multi.Content.{multi_bytes}
use xray_core_python.Mux.Frame.{
  status_new, status_keep, status_end, set_data, set_error, has_data, Destination, Inbound,
  FrameMetadata, no_destination, no_metadata, then_write, write_to, Parsed, parsed, refused,
  short_frame, packet_too_large, then_parse, unmarshal,
}

-- A writer of a stream or of packets. The connection that it writes to is left out.
pub record Writer : Type 0 where
  pub dest : Destination
  pub id : ℕ
  pub followup : Bool
  pub has_error : Bool
  pub is_stream : Bool
  pub global_id : List ℕ
  pub inbound : Option Inbound

abbrev pub new_writer : ℕ → Destination → Bool → List ℕ → Option Inbound → Writer
new_writer id dest is_stream global_id inbound = record {
  dest = dest;
  id = id;
  followup = false;
  has_error = false;
  is_stream = is_stream;
  global_id = global_id;
  inbound = inbound;
}

abbrev pub new_response_writer : ℕ → Bool → Writer
new_response_writer id is_stream = record {
  dest = no_destination;
  id = id;
  followup = true;
  has_error = false;
  is_stream = is_stream;
  global_id = no_metadata.global_id;
  inbound = none;
}

abbrev pub next_frame_meta : Writer → Writer × FrameMetadata
next_frame_meta w = (
  record w { followup = true },
  record {
    target = w.dest;
    session_id = w.id;
    option = 0;
    session_status = if w.followup then status_keep else status_new;
    global_id = w.global_id;
    inbound = w.inbound;
  },
)

unfoldable pub write_meta_only : Writer → Writer × Option (List ℕ)
write_meta_only w = let (w', meta) = next_frame_meta w in (w', write_to meta none)

-- `Len`
abbrev pub data_len : List Buffer → ℕ
data_len [] = 0
data_len (b ∷ mb) = len b + data_len mb

-- `IsEmpty`
abbrev pub all_empty : List Buffer → Bool
all_empty [] = true
all_empty (b ∷ mb) = is_empty b && all_empty mb

-- The second argument is the address that a lone buffer of the data carries.
unfoldable pub write_meta_with_frame :
    FrameMetadata → Option Destination → List Buffer → Option (List ℕ)
write_meta_with_frame meta udp mb =
    then_write (write_to meta udp)
      (λ frame. some (frame ++ (put_u16 (u16 (data_len mb)) ++ multi_bytes mb)))

unfoldable pub write_data : Option Destination → List Buffer → Writer → Writer × Option (List ℕ)
write_data udp mb w =
    let (w', meta) = next_frame_meta w in
    (w', write_meta_with_frame (record meta { option = set_data meta.option }) udp mb)

abbrev pub written_after : List ℕ → Writer × Option (List ℕ) → Writer × Option (List ℕ)
written_after bs (w, none) = (w, none)
written_after bs (w, some cs) = (w, some (bs ++ cs))

abbrev pub then_written :
    Writer × Option (List ℕ) → (Writer → Writer × Option (List ℕ)) → Writer × Option (List ℕ)
then_written (w, none) f = (w, none)
then_written (w, some bs) f = written_after bs (f w)

-- The loop of `WriteMultiBuffer` for a stream, on fuel; the buffers of a stream carry no address.
-- `pool` is what the bytes of a new buffer hold.
unfoldable pub write_stream : List ℕ → ℕ → List Buffer → Writer → Writer × Option (List ℕ)
write_stream pool zero mb w = (w, some [])
write_stream pool (suc fuel) mb w =
    if all_empty mb then (w, some []) else elim (split_size pool regular_size mb) [
      | none ↦ (w, none)
      | some (rest, chunk) ↦
          then_written (write_data none chunk w) (λ w'. write_stream pool fuel rest w')
    ]

-- The loop for packets, each a buffer with its address.
unfoldable pub write_packets :
    List (Buffer × Option Destination) → Writer → Writer × Option (List ℕ)
write_packets [] w = (w, some [])
write_packets ((b, udp) ∷ mb) w =
    if is_empty b && no_bytes mb
    then (w, some [])
    else then_written (write_data udp (b ∷ []) w) (λ w'. write_packets mb w')
  where
    no_bytes : List (Buffer × Option Destination) → Bool
    no_bytes [] = true
    no_bytes ((b, _) ∷ mb) = is_empty b && no_bytes mb

-- `WriteMultiBuffer` of a stream: the fuel is the bytes and the buffers.
unfoldable pub write_multi_buffer : List ℕ → List Buffer → Writer → Writer × Option (List ℕ)
write_multi_buffer pool mb w =
    if all_empty mb
    then write_meta_only w
    else write_stream pool (length (multi_bytes mb) + length mb) mb w

-- `Close`
unfoldable pub close : Writer → Option (List ℕ)
close w =
    write_to
      (record no_metadata {
        session_id = w.id;
        session_status = status_end;
        option = if w.has_error then set_error 0 else 0;
      })
      none

-- All that a reader of `NewReader` reads: one chunk, which for packets has a buffer as its bound.
unfoldable pub read_payload : Bool → List ℕ → Parsed (List ℕ)
read_payload is_stream input =
    if ltb (length input) 2
    then refused short_frame
    else let size = get_u16 input in
      let rest = drop 2 input in
      if not is_stream && ltb regular_size size
      then refused packet_too_large
      else (if ltb (length rest) size
          then refused short_frame
          else parsed (take size rest) (drop size rest))

module _ (parse_ip : List ℕ → Option (List ℕ)) (trim_space : List ℕ → List ℕ)
    (fresh : ℕ → List ℕ) where
  -- What `handleFrame` reads of a frame: the metadata, and the data that come with it.
  unfoldable pub read_frame : Bool → List ℕ → Parsed (FrameMetadata × List ℕ)
  read_frame is_stream input =
      then_parse (unmarshal parse_ip trim_space fresh false input no_metadata) (λ f rest.
        if has_data f.option
        then then_parse (read_payload is_stream rest) (λ d rest'. parsed (f, d) rest')
        else parsed (f, []) rest)

  -- The loop of `run`, up to the end of the input.
  unfoldable pub read_frames : Bool → ℕ → List ℕ → Option (List (FrameMetadata × List ℕ))
  unfolding read_frame
  read_frames is_stream fuel [] = some []
  read_frames is_stream zero (x ∷ input) = none
  read_frames is_stream (suc fuel) (x ∷ input) = elim (read_frame is_stream (x ∷ input)) [
    | refused e ↦ none
    | parsed frame rest ↦ elim (read_frames is_stream fuel rest) [
      | none ↦ none
      | some more ↦ some (frame ∷ more)
    ]
  ]
