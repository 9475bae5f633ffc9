-- ===== src/Mux/Frame/RoundTrip.antt =====
-- The metadata of a frame reads back as it was written.
use xray_core_python.Prelude.{
  ℕ, ◌≤◌, ◌≡◌, refl, sym, ap, ◌∙◌, Bool, true, false, ◌&&◌, Option, none, some, List, [], ◌∷◌, ◌++◌,
  ltb, leb, if◌then◌else◌, length, take, take-all, length-append, arith, u8, u16, put_u16,
  get_u16-put_u16,
}
use xray_core_python.Mux.Frame.{
  status_new, has_data, Destination, FrameMetadata, no_destination, no_metadata, write_origin,
  write_to, parsed, then_parse, read_inbound, has_target, read_target, is_udp, read_origin,
  unmarshal_from_buffer, unmarshal,
}
use xray_core_python.Mux.Frame.Parts.{
  Sent, wire_dest, inbound_bytes, write_inbound_lem, read_destination_lem, read_inbound_lem,
  length-wire_dest, length-inbound_bytes, unmarshal_lem,
}
use xray_core_python.Mux.Frame.Meta.{
  IsFrame, meta, received, ands-false, ands-true, origin_bound, header, without_inbound,
  global_id_lem, IsPaired, write_to_lem,
}

module _ (parse_ip : List ℕ → Option (List ℕ)) (trim_space : List ℕ → List ℕ) (fresh : ℕ → List ℕ)
    (sized : (k : ℕ) → length (fresh k) ≡ 8192) where
  read_target_lem :
      (f : FrameMetadata) (g : FrameMetadata) (o : List ℕ) (s : Sent parse_ip trim_space f.target)
      → g.session_status ≡ status_new
      → read_target parse_ip trim_space fresh
          (meta f (wire_dest parse_ip trim_space f.target s ++ o))
          g
        ≡ parsed (record g { target = f.target }) o
  unfolding read_target meta wire_dest
  read_target_lem f g o s e =
      let b = meta f (wire_dest parse_ip trim_space f.target s ++ o) in
      let size = length-wire_dest parse_ip trim_space f.target s in
      let h : has_target b g.session_status ≡ true = rw e refl in
      let n : ltb (length b) 8 ≡ false =
        ground (arith, size.0, length-append (wire_dest parse_ip trim_space f.target s) o) in
      rw (h, n, read_destination_lem parse_ip trim_space fresh sized 0 f.target o s) refl

  unmarshal_new :
      (r : Bool) (f : FrameMetadata) (o : List ℕ) (s : Sent parse_ip trim_space f.target)
      → IsFrame f
      → f.session_status ≡ status_new
      → unmarshal_from_buffer parse_ip trim_space fresh r
          (meta f (wire_dest parse_ip trim_space f.target s ++ o))
          no_metadata
        ≡ read_origin parse_ip trim_space fresh r (header f) o
  unfolding unmarshal_from_buffer meta header
  unmarshal_new r f o s w e =
      let tail = wire_dest parse_ip trim_space f.target s ++ o in
      let n : ltb (length (meta f tail)) 4 ≡ false = ground arith in
      let i = get_u16-put_u16 f.session_id (u8 f.session_status ∷ u8 f.option ∷ tail) w.id in
      let st : u8 f.session_status ≡ f.session_status = omega (arith, w.status) in
      let fl : u8 f.option ≡ f.option = omega (arith, w.flags) in
      let k : (x y z : ℕ)
          → x ≡ f.session_id
          → y ≡ f.session_status
          → z ≡ f.option
          → read_target parse_ip trim_space fresh (meta f tail) (record (header f) {
            target = no_destination;
            session_id = x;
            session_status = y;
            option = z;
          })
            ≡ parsed (header f) o =
        λ x y z p q t.
          rw (p, q, t) (read_target_lem f (record (header f) { target = no_destination }) o s e) in
      rw (n) (
        ap (λ t. then_parse t (λ g rest. read_origin parse_ip trim_space fresh r g rest))
          (k _ _ _ i st fl))

  origin_read :
      (f : FrameMetadata) (b : List ℕ)
      → f.session_status ≡ status_new
      → read_origin parse_ip trim_space fresh true f b
        ≡ then_parse
            (read_inbound parse_ip trim_space fresh b)
            (λ i rest. parsed (record f { inbound = some i }) rest)
  unfolding read_origin
  origin_read f b e = simp (e)

  origin_kept :
      (f : FrameMetadata) (b : List ℕ)
      → f.session_status ≡ status_new
      → read_origin parse_ip trim_space fresh false f b ≡ (
          if has_data f.option && is_udp f.target.network && leb 8 (length b)
          then parsed (record f { global_id = take 8 b }) b
          else parsed f b)
  unfolding read_origin
  origin_kept f b e = simp (e)

  origin_lem :
      (r : Bool) (f : FrameMetadata) (udp : Option Destination)
      → f.session_status ≡ status_new
      → IsPaired parse_ip trim_space r f
      → (o : List ℕ) × (left : List ℕ) × (write_origin f udp ≡ some o)
        × (length o ≤ origin_bound r)
        × (read_origin parse_ip trim_space fresh r (header f) o ≡ parsed (received r f udp) left)
  unfolding header
  origin_lem true f udp e (i, h, k) = (
    inbound_bytes parse_ip trim_space i k,
    [],
    rw (h) (write_inbound_lem parse_ip trim_space i k),
    length-inbound_bytes parse_ip trim_space i k,
    origin_read (header f) (inbound_bytes parse_ip trim_space i k) e
        ∙ rw (read_inbound_lem parse_ip trim_space fresh sized i k)
            (ap (λ t. parsed (record (header f) { inbound = t }) []) (sym h)),
  )
  origin_lem false f none e (h, k) = (
    [],
    [],
    rw (h) refl,
    omega arith,
    origin_kept (header f) [] e
        ∙ rw (ands-false (has_data f.option) (is_udp f.target.network))
            (without_inbound f no_metadata.global_id [] h),
  )
  origin_lem false f (some u) e (h, k) = (
    f.global_id,
    f.global_id,
    rw (h) refl,
    omega (arith, k),
    origin_kept (header f) f.global_id e
        ∙ (let n : leb 8 (length f.global_id) ≡ true = ground (arith, k) in
            rw
              (
                n,
                ands-true (has_data f.option) (is_udp f.target.network),
                take-all 8 f.global_id (omega (arith, k)),
              )
              (global_id_lem (has_data f.option && is_udp f.target.network) f f.global_id h)),
  )

  length-meta_short :
      (f : FrameMetadata) (o : List ℕ) (s : Sent parse_ip trim_space f.target)
      → length o ≤ 8
      → length (meta f (wire_dest parse_ip trim_space f.target s ++ o)) ≤ 512
  unfolding meta
  length-meta_short f o s h =
      let size = length-wire_dest parse_ip trim_space f.target s in
      omega (arith, size.1, h, length-append (wire_dest parse_ip trim_space f.target s) o)

  -- A frame without the addresses of a connection is never too long.
  pub unmarshal-write_to_short :
      (f : FrameMetadata) (udp : Option Destination)
      → IsFrame f
      → f.session_status ≡ status_new
      → Sent parse_ip trim_space f.target
      → IsPaired parse_ip trim_space false f
      → (bs : List ℕ) × (write_to f udp ≡ some bs)
        × (1 ≤ length bs)
        × ((rest : List ℕ)
            → unmarshal parse_ip trim_space fresh false (bs ++ rest) no_metadata
              ≡ parsed (received false f udp) rest)
  unmarshal-write_to_short f udp w e s k =
      let (o, left, h, l, g) = origin_lem false f udp e k in
      let m = meta f (wire_dest parse_ip trim_space f.target s ++ o) in
      let read = unmarshal_new false f o s w e ∙ g in
      (
        put_u16 (u16 (length m)) ++ m,
        write_to_lem parse_ip trim_space f udp o e s h,
        omega arith,
        λ rest.
            unmarshal_lem parse_ip trim_space fresh sized false m rest no_metadata
              (length-meta_short f o s l)
            ∙ ap (λ t. then_parse t (λ g' _. parsed g' rest)) read,
      )
