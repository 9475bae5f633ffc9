-- ===== src/Mux/Frame/Meta.antt =====
-- The bytes of the metadata of a new session, and what its reader is to get.
use xray_core_python.Prelude.{
  ℕ, ◌≤◌, ◌≡◌, refl, sym, ap, Bool, true, false, ◌&&◌, Option, none, some, List, ◌∷◌, ◌++◌,
  if◌then◌else◌, length, arith, u8, u16, put_u16, IsU8, IsU16,
}
use xray_core_python.Mux.Frame.{
  status_new, has_data, Destination, Inbound, FrameMetadata, no_metadata, write_origin, write_tail,
  write_to, parsed, is_udp,
}
use xray_core_python.Mux.Frame.Parts.{
  network_lem, Sent, wire_dest, InboundSent, write_destination_lem,
}

-- The words of a frame.
pub record IsFrame (f : FrameMetadata) : Type 0 where
  pub id : IsU16 f.session_id
  pub status : IsU8 f.session_status
  pub flags : IsU8 f.option

unfoldable pub meta : FrameMetadata → List ℕ → List ℕ
meta f tail = put_u16 f.session_id ++ (u8 f.session_status ∷ u8 f.option ∷ tail)

-- The global id is read where the frame of a new session over UDP carries data with an address, and
-- the addresses of its connection are not looked for.
abbrev pub kept_global_id : Bool → FrameMetadata → Option Destination → List ℕ
kept_global_id true f udp = no_metadata.global_id
kept_global_id false f none = no_metadata.global_id
kept_global_id false f (some u) =
    if has_data f.option && is_udp f.target.network then f.global_id else no_metadata.global_id

-- What the reader of a frame of a new session is to get.
abbrev pub received : Bool → FrameMetadata → Option Destination → FrameMetadata
received r f udp = record f { global_id = kept_global_id r f udp }

pub ands-false : (a b : Bool) → (a && b && false) ≡ false
ands-false true true = refl
ands-false true false = refl
ands-false false true = refl
ands-false false false = refl

pub ands-true : (a b : Bool) → (a && b && true) ≡ (a && b)
ands-true true true = refl
ands-true true false = refl
ands-true false true = refl
ands-true false false = refl

abbrev pub origin_bound : Bool → ℕ
origin_bound true = 520
origin_bound false = 8

pub origin_bound_le : (r : Bool) (n : ℕ) → n ≤ origin_bound r → n ≤ 520
origin_bound_le true n h = h
origin_bound_le false n h = omega (arith, h)

unfoldable pub header : FrameMetadata → FrameMetadata
header f = record no_metadata {
  target = f.target;
  session_id = f.session_id;
  session_status = f.session_status;
  option = f.option;
}

-- Metadata without the addresses of a connection.
pub without_inbound :
    (f : FrameMetadata) (q left : List ℕ)
    → f.inbound ≡ none
    → parsed (record (header f) { global_id = q }) left ≡ parsed (record f { global_id = q }) left
unfolding header
without_inbound f q left h =
    ap (λ t. parsed (record (header f) { global_id = q; inbound = t }) left) (sym h)

pub global_id_lem :
    (c : Bool) (f : FrameMetadata) (left : List ℕ)
    → f.inbound ≡ none
    → (if c
        then parsed (record (header f) { global_id = f.global_id }) left
        else parsed (header f) left)
      ≡ parsed (record f { global_id = if c then f.global_id else no_metadata.global_id }) left
unfolding header
global_id_lem true f left h = without_inbound f f.global_id left h
global_id_lem false f left h = without_inbound f no_metadata.global_id left h

module _ (parse_ip : List ℕ → Option (List ℕ)) (trim_space : List ℕ → List ℕ) where
  -- The writer knows what the reader looks for behind the target: the addresses of the connection,
  -- or a global id of 8 bytes.
  abbrev pub IsPaired : Bool → FrameMetadata → Type 0
  IsPaired true f = (i : Inbound) × (f.inbound ≡ some i) × InboundSent parse_ip trim_space i
  IsPaired false f = (f.inbound ≡ none) × (length f.global_id ≡ 8)

  pub write_to_lem :
      (f : FrameMetadata) (udp : Option Destination) (o : List ℕ)
      → f.session_status ≡ status_new
      → (s : Sent parse_ip trim_space f.target) → write_origin f udp ≡ some o
      → let m = meta f (wire_dest parse_ip trim_space f.target s ++ o) in
        write_to f udp ≡ some (put_u16 (u16 (length m)) ++ m)
  unfolding write_to write_tail meta wire_dest
  write_to_lem f udp o e s h =
      let (n, _, _) = network_lem f.target.network s.named in
      rw (e, n, write_destination_lem parse_ip trim_space f.target s, h) refl
