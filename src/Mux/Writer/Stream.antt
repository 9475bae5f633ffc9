-- ===== src/Mux/Writer/Stream.antt =====
-- The stream that a reader makes of the frames of a writer.
use xray_core_python.Prelude.{
  ℕ, zero, suc, ◌≤◌, ◌≡◌, refl, sym, ap, ◌∙◌, subst, true, false, Option, none, some, List, [], ◌∷◌,
  ◌++◌, length, length-append, All, arith, Bool-cases, inl, inr,
}
use xray_core_python.Buf.{Buffer, regular_size}
use xray_core_python.Buf.Slices.{IsValid}
use xray_core_python.Buf.Multi.{split_size}
use xray_core_python.Buf.Multi.Content.{multi_bytes}
use xray_core_python.Buf.Multi.Splitting.{measure, split_size-SizeSplit}
use xray_core_python.Mux.Frame.{FrameMetadata, parsed}
use xray_core_python.Mux.Writer.{
  Writer, data_len, all_empty, write_data, written_after, write_stream, write_multi_buffer,
  read_frame, read_frames,
}
use xray_core_python.Mux.Writer.Framed.{
  data_len_lem, no_length, all_empty_lem, some_left, IsRun, payloads, frame_of, IsReady,
  IsReady-next, Framed, write_data-Framed,
}

module _ (parse_ip : List ℕ → Option (List ℕ)) (trim_space : List ℕ → List ℕ) (fresh : ℕ → List ℕ)
    (sized : (k : ℕ) → length (fresh k) ≡ 8192) where
  read_more :
      (fuel : ℕ) (input rest : List ℕ) (f : FrameMetadata) (d : List ℕ)
      (more : List (FrameMetadata × List ℕ))
      → 1 ≤ length input
      → read_frame parse_ip trim_space fresh true input ≡ parsed (f, d) rest
      → read_frames parse_ip trim_space fresh true fuel rest ≡ some more
      → read_frames parse_ip trim_space fresh true (suc fuel) input ≡ some ((f, d) ∷ more)
  unfolding read_frames
  read_more fuel [] rest f d more l e g = absurd (omega arith)
  read_more fuel (x ∷ input) rest f d more l e g = rw (e, g, read_frames) refl

  write_more :
      (pool : List ℕ) (fuel : ℕ) (mb rest chunk : List Buffer) (w w' : Writer) (bs : List ℕ)
      → all_empty mb ≡ false
      → split_size pool regular_size mb ≡ some (rest, chunk)
      → write_data none chunk w ≡ (w', some bs)
      → write_stream pool (suc fuel) mb w ≡ written_after bs (write_stream pool fuel rest w')
  unfolding write_stream
  write_more pool fuel mb rest chunk w w' bs a s d = rw (a, s, d) refl

  -- What a stream was written as, and what its reader makes of that.
  record Streamed (w : Writer) (mb : List Buffer) (out : Writer × Option (List ℕ)) : Type 0 where
    left : Writer
    wire : List ℕ
    result : out ≡ (left, some wire)
    frames : List (FrameMetadata × List ℕ)
    read :
        (fuel : ℕ)
        → length wire ≤ fuel
        → read_frames parse_ip trim_space fresh true fuel wire ≡ some frames
    same : payloads frames ≡ multi_bytes mb
    is_run : IsRun w frames

  read_end : (fuel : ℕ) → read_frames parse_ip trim_space fresh true fuel [] ≡ some []
  unfolding read_frames
  read_end zero = refl
  read_end (suc fuel) = refl

  nothing_left :
      (w : Writer) (mb : List Buffer)
      → All IsValid mb
      → data_len mb ≡ 0
      → Streamed w mb (w, some [])
  nothing_left w mb v e = record {
    left = w;
    wire = [];
    result = refl;
    frames = [];
    read = λ fuel l. read_end fuel;
    same = sym (no_length (multi_bytes mb) (sym (data_len_lem mb v) ∙ e));
    is_run = tt;
  }

  read_both :
      (fuel : ℕ) (w : Writer) (mb chunk : List Buffer) (out : Writer × Option (List ℕ))
      (f : Framed parse_ip trim_space fresh sized w chunk)
      (s : Streamed (record w { followup = true }) mb out)
      → length (f.frame ++ s.wire) ≤ fuel
      → read_frames parse_ip trim_space fresh true fuel (f.frame ++ s.wire)
        ≡ some ((frame_of w, multi_bytes chunk) ∷ s.frames)
  read_both zero w mb chunk out f s l =
      absurd (omega (arith, l, f.longer, length-append f.frame s.wire))
  read_both (suc fuel) w mb chunk out f s l =
      read_more fuel (f.frame ++ s.wire) s.wire (frame_of w) (multi_bytes chunk) s.frames
        (omega (arith, f.longer, length-append f.frame s.wire)) (f.read s.wire)
        (s.read fuel (omega (arith, l, f.longer, length-append f.frame s.wire)))

  one_more :
      (w : Writer) (mb rest chunk : List Buffer) (out : Writer × Option (List ℕ))
      → multi_bytes chunk ++ multi_bytes rest ≡ multi_bytes mb
      → (f : Framed parse_ip trim_space fresh sized w chunk)
      → Streamed (record w { followup = true }) rest out
      → Streamed w mb (written_after f.frame out)
  one_more w mb rest chunk out e f s = record {
    left = s.left;
    wire = f.frame ++ s.wire;
    result = ap (written_after f.frame) s.result;
    frames = (frame_of w, multi_bytes chunk) ∷ s.frames;
    read = λ fuel l. read_both fuel w rest chunk out f s l;
    same = ap (λ t. multi_bytes chunk ++ t) s.same ∙ e;
    is_run = (refl, s.is_run);
  }

  write_stream-Streamed :
      (pool : List ℕ) (fuel : ℕ) (mb : List Buffer) (w : Writer)
      → 8192 ≤ length pool
      → measure mb ≤ fuel
      → All IsValid mb
      → IsReady parse_ip trim_space w
      → Streamed w mb (write_stream pool fuel mb w)
  unfolding write_stream
  write_stream-Streamed pool zero mb w h l v r =
      nothing_left w mb v (omega (arith, l, data_len_lem mb v))
  write_stream-Streamed pool (suc fuel) mb w h l v r = elim (Bool-cases (all_empty mb)) [
    | inl a ↦ rw (a) (nothing_left w mb v (all_empty_lem mb v a))
    | inr a ↦
        let s = split_size-SizeSplit pool regular_size mb h v in
        let f =
          write_data-Framed parse_ip trim_space fresh sized w s.front r s.front_valid s.small in
        subst (Streamed w mb)
          (sym (
            write_more pool fuel mb s.rest s.front w (record w { followup = true }) f.frame a
              s.result f.result))
          (one_more w mb s.rest s.front _ s.same f (
            write_stream-Streamed pool fuel s.rest (record w { followup = true }) h
              (omega (arith, l, s.shrinks (omega arith) (some_left mb a))) s.rest_valid
              (IsReady-next parse_ip trim_space w r)))
  ]

  -- A write of a stream that is not empty, in valid buffers of any sizes, ends without an error, where the
  -- session's number is a uint16, new buffers have 8192 bytes, and the session is open or is to an
  -- address that the wire carries, with a global id of 8 bytes and no inbound to tell of. What it
  -- writes reads back as frames that hold the bytes of the stream, in order: under the number of
  -- the session, the first opening it where it was not open, and the others following.
  pub read_frames-write_stream :
      (pool : List ℕ) (mb : List Buffer) (w : Writer)
      → 8192 ≤ length pool
      → All IsValid mb
      → IsReady parse_ip trim_space w
      → all_empty mb ≡ false
      → (w' : Writer) × (bs : List ℕ) × (frames : List (FrameMetadata × List ℕ))
        × (write_multi_buffer pool mb w ≡ (w', some bs))
        × (read_frames parse_ip trim_space fresh true (length bs) bs ≡ some frames)
        × (payloads frames ≡ multi_bytes mb)
        × IsRun w frames
  unfolding write_multi_buffer
  read_frames-write_stream pool mb w h v r a =
      let s = write_stream-Streamed pool (measure mb) mb w h (omega arith) v r in
      (
        s.left,
        s.wire,
        s.frames,
        rw (a) s.result,
        s.read (length s.wire) (omega arith),
        s.same,
        s.is_run,
      )
