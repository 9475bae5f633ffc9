-- ===== src/Mux/Writer/Framed.antt =====
-- One frame with data, as it is written and taken apart again.
use xray_core_python.Prelude.{
  ℕ, suc, ◌≤◌, ◌≡◌, ◌⊎◌, refl, sym, ap, ◌∙◌, Bool, true, false, ◌&&◌, Option, none, some, List, [],
  ◌∷◌, ◌++◌, append_assoc, ltb, if◌then◌else◌, length, take-append, drop-append, length-append, All,
  arith, inl, inr, u16, put_u16, get_u16-put_u16, IsU16,
}
use xray_core_python.Buf.{Buffer, is_empty, bytes}
use xray_core_python.Buf.Slices.{IsValid, length-bytes}
use xray_core_python.Buf.Multi.Content.{multi_bytes}
use xray_core_python.Mux.Frame.{
  status_new, status_keep, has_data, FrameMetadata, no_metadata, write_to, parsed, unmarshal,
}
use xray_core_python.Mux.Frame.Parts.{Sent}
use xray_core_python.Mux.Frame.RoundTrip.{unmarshal-write_to_short}
use xray_core_python.Mux.Frame.Followup.{unmarshal-write_any_followup}
use xray_core_python.Mux.Writer.{
  Writer, data_len, all_empty, write_meta_with_frame, write_data, read_payload, read_frame,
}

pub data_len_lem : (mb : List Buffer) → All IsValid mb → data_len mb ≡ length (multi_bytes mb)
data_len_lem [] v = refl
data_len_lem (b ∷ mb) v =
    omega (arith, length-append (bytes b) (multi_bytes mb), length-bytes b v.0, data_len_lem mb v.1)

pub no_length : (xs : List ℕ) → length xs ≡ 0 → xs ≡ []
no_length [] h = refl
no_length (x ∷ xs) h = absurd (omega arith)

both : (a b : Bool) → (a && b) ≡ true → (a ≡ true) × (b ≡ true)
both true b h = (refl, h)
both false b h = ground arith

pub all_empty_lem : (mb : List Buffer) → All IsValid mb → all_empty mb ≡ true → data_len mb ≡ 0
all_empty_lem [] v h = refl
all_empty_lem (b ∷ mb) v h =
    let (first, rest) = both (is_empty b) (all_empty mb) h in
    let more = all_empty_lem mb v.1 rest in ground (arith, first, more)

pub some_left : (mb : List Buffer) → all_empty mb ≡ false → 1 ≤ length mb
some_left [] h = absurd (ground arith)
some_left (b ∷ mb) h = omega arith

read_payload_lem :
    (n : ℕ) (d rest : List ℕ)
    → length d ≡ n
    → n ≤ 8192
    → read_payload true (put_u16 (u16 n) ++ (d ++ rest)) ≡ parsed d rest
unfolding read_payload
read_payload_lem n d rest e h =
    let w = get_u16-put_u16 n (d ++ rest) (omega (arith, h)) in
    let k : u16 n ≡ n = omega (arith, h) in
    let t : ltb (suc (suc (length (d ++ rest)))) 2 ≡ false = ground arith in
    let g : ltb (length (d ++ rest)) n ≡ false = ground (arith, length-append d rest) in
    rw (t, k, w, g, take-append n d rest e, drop-append n d rest e) refl

-- The metadata of a frame with data, where the session is open and where it is not.
abbrev pub frame_at : Bool → Writer → FrameMetadata
frame_at true w = record no_metadata { session_id = w.id; session_status = status_keep; option = 1 }
frame_at false w = record no_metadata {
  target = w.dest;
  session_id = w.id;
  session_status = status_new;
  option = 1;
}

-- What the metadata of the next frame with data are to be.
abbrev pub frame_of : Writer → FrameMetadata
frame_of w = frame_at w.followup w

-- The first frame opens the session, unless it is open, and the others follow.
abbrev pub IsRun : Writer → List (FrameMetadata × List ℕ) → Type 0
IsRun w [] = Unit
IsRun w ((f, d) ∷ frames) = (f ≡ frame_of w) × IsRun (record w { followup = true }) frames

abbrev pub payloads : List (FrameMetadata × List ℕ) → List ℕ
payloads [] = []
payloads ((f, d) ∷ frames) = d ++ payloads frames

meta_of : Bool → Writer → FrameMetadata
meta_of s w = record {
  target = w.dest;
  session_id = w.id;
  option = 1;
  session_status = if s then status_keep else status_new;
  global_id = w.global_id;
  inbound = w.inbound;
}

write_data_lem :
    (s : Bool) (mb : List Buffer) (w : Writer)
    → w.followup ≡ s
    → write_data none mb w
      ≡ (record w { followup = true }, write_meta_with_frame (meta_of s w) none mb)
unfolding write_data meta_of
write_data_lem s mb w e =
    ap (λ t. (record w { followup = true }, write_meta_with_frame (meta_of t w) none mb)) e

module _ (parse_ip : List ℕ → Option (List ℕ)) (trim_space : List ℕ → List ℕ) where
  -- A writer whose session is open, or is to an address that the wire carries, without an inbound.
  pub record IsReady (w : Writer) : Type 0 where
    pub word : IsU16 w.id
    pub known :
        (w.followup ≡ true)
        ⊎ (w.followup ≡ false)
          × Sent parse_ip trim_space w.dest
          × (w.inbound ≡ none)
          × (length w.global_id ≡ 8)

  pub IsReady-next : (w : Writer) → IsReady w → IsReady (record w { followup = true })
  IsReady-next w h = record { word = h.word; known = inl refl }

module _ (parse_ip : List ℕ → Option (List ℕ)) (trim_space : List ℕ → List ℕ) (fresh : ℕ → List ℕ)
    (sized : (k : ℕ) → length (fresh k) ≡ 8192) where
  -- A frame that was written, and that its reader takes apart whatever follows it.
  pub record Framed (w : Writer) (mb : List Buffer) : Type 0 where
    pub frame : List ℕ
    pub result : write_data none mb w ≡ (record w { followup = true }, some frame)
    pub longer : 1 ≤ length frame
    pub read :
        (rest : List ℕ)
        → read_frame parse_ip trim_space fresh true (frame ++ rest)
          ≡ parsed (frame_of w, multi_bytes mb) rest

  Framed_lem :
      (s : Bool) (w : Writer) (mb : List Buffer) (bs : List ℕ)
      → w.followup ≡ s
      → All IsValid mb
      → length (multi_bytes mb) ≤ 8192
      → write_to (meta_of s w) none ≡ some bs
      → 1 ≤ length bs
      → ((rest : List ℕ)
          → unmarshal parse_ip trim_space fresh false (bs ++ rest) no_metadata
            ≡ parsed (frame_of w) rest)
      → has_data (frame_of w).option ≡ true
      → Framed w mb
  unfolding write_meta_with_frame read_frame
  Framed_lem s w mb bs e v h written l read d =
      let n = length (multi_bytes mb) in
      let size = put_u16 (u16 n) in
      record {
        frame = bs ++ (size ++ multi_bytes mb);
        result = write_data_lem s mb w e ∙ rw (written, data_len_lem mb v) refl;
        longer = omega (arith, l, length-append bs (size ++ multi_bytes mb));
        read = λ rest.
            rw
              (
                append_assoc bs (size ++ multi_bytes mb) rest,
                read (size ++ (multi_bytes mb ++ rest)),
                d,
                read_payload_lem n (multi_bytes mb) rest refl h,
              )
              refl;
      }

  pub write_data-Framed :
      (w : Writer) (mb : List Buffer)
      → IsReady parse_ip trim_space w
      → All IsValid mb
      → length (multi_bytes mb) ≤ 8192
      → Framed w mb
  unfolding meta_of
  write_data-Framed w mb r v h = elim r.known [
    | inl e ↦
        let f = meta_of true w in
        let (bs, written, l, read) =
          unmarshal-write_any_followup parse_ip trim_space fresh sized false f no_metadata none
            (record { id = r.word; status = omega arith; flags = omega arith }) refl tt in
        Framed_lem true w mb bs e v h written l
          (λ rest. read rest ∙ ap (λ t. parsed (frame_at t w) rest) (sym e))
          (ap (λ t. has_data (frame_at t w).option) e)
    | inr (e, s, i, g) ↦
        let f = meta_of false w in
        let (bs, written, l, read) =
          unmarshal-write_to_short parse_ip trim_space fresh sized f none
            (record { id = r.word; status = omega arith; flags = omega arith }) refl s (i, g) in
        Framed_lem false w mb bs e v h written l
          (λ rest.
            read rest
            ∙ ap (λ t. parsed (record (frame_at false w) { inbound = t }) rest) i
            ∙ ap (λ t. parsed (frame_at t w) rest) (sym e))
          (ap (λ t. has_data (frame_at t w).option) e)
  ]
