-- ===== src/Mux/Frame/Followup.antt =====
-- The metadata of a frame that follows the first one of its session.
use xray_core_python.Prelude.{
  ℕ, ◌≤◌, ◌≡◌, refl, sym, ap, ◌∙◌, subst, Bool, true, false, ◌&&◌, ◌||◌, Option, none, some, List,
  [], ◌∷◌, ◌++◌, append-nil, ltb, ◌==◌, if◌then◌else◌, length, get_or, drop, arith, Bool-cases, inl,
  inr, u8, u16, put_u16, get_u16, get_u16-put_u16,
}
use xray_core_python.Mux.Frame.{
  status_new, status_keep, network_unknown, network_udp, Destination, FrameMetadata, write_tail,
  write_to, parsed, then_parse, read_destination, has_target, read_target, read_origin,
  unmarshal_from_buffer, unmarshal,
}
use xray_core_python.Mux.Frame.Parts.{
  network_byte, Sent, wire_of, wire_dest, write_udp_lem, read_destination_lem, length-wire_dest,
  unmarshal_lem,
}
use xray_core_python.Mux.Frame.Meta.{IsFrame, meta}

-- The metadata that the reader is to get: the target is there in a frame of the status `keep` alone.
abbrev pub followed : FrameMetadata → FrameMetadata → Option Destination → FrameMetadata
followed f f0 udp = record f0 {
  session_id = f.session_id;
  session_status = f.session_status;
  option = f.option;
  target =
      if f.session_status == status_keep
      then (elim udp [ none ↦ record f0.target { network = network_unknown } | some u ↦ u ])
      else record f0.target { network = network_unknown };
}

module _ (parse_ip : List ℕ → Option (List ℕ)) (trim_space : List ℕ → List ℕ) (fresh : ℕ → List ℕ)
    (sized : (k : ℕ) → length (fresh k) ≡ 8192) where
  -- The address of a packet is one that the wire carries.
  abbrev pub IsPacket : Option Destination → Type 0
  IsPacket none = Unit
  IsPacket (some u) = (u.network ≡ network_udp) × Sent parse_ip trim_space u

  tail_of : (udp : Option Destination) → IsPacket udp → List ℕ
  tail_of none p = []
  tail_of (some u) (e, s) = 2 ∷ wire_of parse_ip trim_space u s

  write_to_lem :
      (f : FrameMetadata) (udp : Option Destination) (p : IsPacket udp)
      → (f.session_status == status_new) ≡ false
      → write_to f udp
        ≡ some (put_u16 (u16 (length (meta f (tail_of udp p)))) ++ meta f (tail_of udp p))
  unfolding write_to write_tail meta tail_of
  write_to_lem f none p h = rw (h) refl
  write_to_lem f (some u) (e, s) h = rw (h, write_udp_lem parse_ip trim_space u s) refl

  target_read :
      (b : List ℕ) (g : FrameMetadata)
      → has_target b g.session_status ≡ true
      → 8 ≤ length b
      → read_target parse_ip trim_space fresh b g
        ≡ then_parse
            (read_destination parse_ip trim_space fresh 0 (get_or b 4 0) (drop 5 b))
            (λ d rest. parsed (record g { target = d }) rest)
  unfolding read_target
  target_read b g h l = let n : ltb (length b) 8 ≡ false = ground (arith, l) in rw (h, n) refl

  target_missing :
      (b : List ℕ) (g : FrameMetadata)
      → has_target b g.session_status ≡ false
      → read_target parse_ip trim_space fresh b g ≡ parsed g b
  unfolding read_target
  target_missing b g h = rw (h) refl

  read_udp :
      (u : Destination) (p : IsPacket (some u))
      → read_destination parse_ip trim_space fresh 0 2 (wire_of parse_ip trim_space u p.1)
        ≡ parsed u []
  read_udp u (e, s) =
      subst
        (λ n.
          read_destination parse_ip trim_space fresh 0 n (wire_of parse_ip trim_space u s)
          ≡ parsed u [])
        (ap network_byte e)
        (ap (read_destination parse_ip trim_space fresh 0 (network_byte u.network))
            (sym (append-nil (wire_of parse_ip trim_space u s)))
          ∙ read_destination_lem parse_ip trim_space fresh sized 0 u [] s)

  tested :
      (st : ℕ) (rest : Bool)
      → (st == status_new) ≡ false
      → (st == status_keep) ≡ false
      → (st == status_new || (st == status_keep && rest)) ≡ false
  tested st rest e f = rw (e, f) refl

  -- What is left of the metadata is not looked at.
  read_followed :
      (f g : FrameMetadata) (udp : Option Destination) (p : IsPacket udp)
      → g.session_status ≡ f.session_status
      → (f.session_status == status_new) ≡ false
      → (left : List ℕ) × (read_target parse_ip trim_space fresh (meta f (tail_of udp p)) g
          ≡ parsed
              (record g {
                target =
                    if f.session_status == status_keep
                    then (elim udp [ none ↦ g.target | some u ↦ u ])
                    else g.target;
              })
              left)
  unfolding meta tail_of wire_dest
  read_followed f g none p e h =
      let b = meta f [] in
      let t : has_target b f.session_status ≡ false =
        elim (Bool-cases (f.session_status == status_keep)) [
          | inl k ↦ rw (h, k) refl
          | inr k ↦ rw (h, k) refl
        ] in
      (
        b,
        target_missing b g (subst (λ st. has_target b st ≡ false) (sym e) t)
            ∙ elim (Bool-cases (f.session_status == status_keep)) [
              | inl k ↦ rw (k) refl
              | inr k ↦ rw (k) refl
            ],
      )
  read_followed f g (some u) (n, s) e h =
      let b = meta f (2 ∷ wire_of parse_ip trim_space u s) in
      let size = length-wire_dest parse_ip trim_space u s in
      let longer : ltb 4 (length b) ≡ true = ground (arith, size.0) in
      elim (Bool-cases (f.session_status == status_keep)) [
        | inl k ↦ (
          [],
          target_read b g (subst (λ st. has_target b st ≡ true) (sym e) (rw (h, k, longer) refl))
                (omega (arith, size.0))
              ∙ rw (read_udp u (n, s), k) refl,
        )
        | inr k ↦ (
          b,
          target_missing b g (subst (λ st. has_target b st ≡ false) (sym e) (rw (h, k) refl))
              ∙ rw (k) refl,
        )
      ]

  short_meta :
      (f : FrameMetadata) (udp : Option Destination) (p : IsPacket udp)
      → length (meta f (tail_of udp p)) ≤ 512
  unfolding meta tail_of wire_dest
  short_meta f none p = omega arith
  short_meta f (some u) (e, s) =
      let size = length-wire_dest parse_ip trim_space u s in omega (arith, size.1)

  origin_skipped :
      (r : Bool) (g : FrameMetadata) (b : List ℕ)
      → (g.session_status == status_new) ≡ false
      → read_origin parse_ip trim_space fresh r g b ≡ parsed g b
  unfolding read_origin
  origin_skipped r g b h = simp (h)

  named_words :
      (f f0 : FrameMetadata) (udp : Option Destination) (p : IsPacket udp) (x y z : ℕ)
      → (f.session_status == status_new) ≡ false
      → x ≡ f.session_id
      → y ≡ f.session_status
      → z ≡ f.option
      → (left : List ℕ) × (read_target parse_ip trim_space fresh
            (meta f (tail_of udp p))
            (record f0 {
              session_id = x;
              session_status = y;
              option = z;
              target = record f0.target { network = network_unknown };
            })
          ≡ parsed (followed f f0 udp) left)
  named_words f f0 udp p x y z h i st fl =
      rw (i, st, fl)
        (read_followed f
          (record f0 {
            session_id = f.session_id;
            session_status = f.session_status;
            option = f.option;
            target = record f0.target { network = network_unknown };
          })
          udp p refl h)

  unmarshal_followup :
      (r : Bool) (f f0 : FrameMetadata) (udp : Option Destination) (p : IsPacket udp)
      → IsFrame f
      → (f.session_status == status_new) ≡ false
      → (left : List ℕ) × (unmarshal_from_buffer parse_ip trim_space fresh r
            (meta f (tail_of udp p))
            f0
          ≡ parsed (followed f f0 udp) left)
  unfolding unmarshal_from_buffer meta
  unmarshal_followup r f f0 udp p w h =
      let m = meta f (tail_of udp p) in
      let n : ltb (length m) 4 ≡ false = ground arith in
      let i =
        get_u16-put_u16 f.session_id (u8 f.session_status ∷ u8 f.option ∷ tail_of udp p) w.id in
      let (left, e) =
        named_words f f0 udp p (get_u16 m) (u8 f.session_status) (u8 f.option) h i
          (omega (arith, w.status)) (omega (arith, w.flags)) in
      (
        left,
        rw (n) (
            ap (λ t. then_parse t (λ g rest. read_origin parse_ip trim_space fresh r g rest)) e
            ∙ origin_skipped r (followed f f0 udp) left h),
      )

  pub unmarshal-write_any_followup :
      (r : Bool) (f f0 : FrameMetadata) (udp : Option Destination)
      → IsFrame f
      → (f.session_status == status_new) ≡ false
      → IsPacket udp
      → (bs : List ℕ) × (write_to f udp ≡ some bs)
        × (1 ≤ length bs)
        × ((rest : List ℕ)
            → unmarshal parse_ip trim_space fresh r (bs ++ rest) f0
              ≡ parsed (followed f f0 udp) rest)
  unmarshal-write_any_followup r f f0 udp w h p =
      let m = meta f (tail_of udp p) in
      let (left, e) = unmarshal_followup r f f0 udp p w h in
      (
        put_u16 (u16 (length m)) ++ m,
        write_to_lem f udp p h,
        omega arith,
        λ rest.
            unmarshal_lem parse_ip trim_space fresh sized r m rest f0 (short_meta f udp p)
            ∙ ap (λ t. then_parse t (λ g _. parsed g rest)) e,
      )
