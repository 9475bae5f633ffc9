-- ===== src/Kcp/AckList/Compact.antt =====
-- `AckList.Clear` compacts three slices in place: it keeps the entries not below `una`.
use xray_core_python.Prelude.{
  ℕ, zero, suc, ◌+◌, ◌≡◌, refl, ap, ◌∙◌, true, false, List, [], ◌∷◌, ◌++◌, append_assoc, append-nil,
  ltb, ◌==◌, if◌then◌else◌, length, get_or, set, take, length-append, take-append, arith,
  Bool-cases, inl, inr, take-all, sym, ltb_false→le,
}
use xray_core_python.Kcp.AckList.{AckList, clear_round, clear_loop, cut, clear}

-- The entries of `xs` whose number, at the same index, is at least `una`.
abbrev pub keep : ℕ → List ℕ → List ℕ → List ℕ
keep una (n ∷ ns) (x ∷ xs) = let rest = keep una ns xs in if ltb n una then rest else x ∷ rest
keep una _ _ = []

get_or-append : (xs ys : List ℕ) (i x : ℕ) → length xs ≡ i → get_or (xs ++ (x ∷ ys)) i 0 ≡ x
get_or-append [] ys zero x h = refl
get_or-append [] ys (suc i) x h = absurd (omega arith)
get_or-append (y ∷ xs) ys zero x h = absurd (omega arith)
get_or-append (y ∷ xs) ys (suc i) x h = get_or-append xs ys i x (omega arith)

set-append :
    (xs ys : List ℕ) (i x v : ℕ) → length xs ≡ i → set (xs ++ (x ∷ ys)) i v ≡ xs ++ (v ∷ ys)
set-append [] ys zero x v h = refl
set-append [] ys (suc i) x v h = absurd (omega arith)
set-append (y ∷ xs) ys zero x v h = absurd (omega arith)
set-append (y ∷ xs) ys (suc i) x v h = ap (λ t. y ∷ t) (set-append xs ys i x v (omega arith))

-- A slice during the compaction: what is kept, what is overwritten or to be cut, what is to come.
record Slice (xs kept rest : List ℕ) (count i : ℕ) : Type 0 where
  junk : List ℕ
  shape : xs ≡ kept ++ (junk ++ rest)
  kept_len : length kept ≡ count
  read_len : count + length junk ≡ i

Slice-read :
    {xs kept rest : List ℕ} {count i : ℕ} (x : ℕ)
    → Slice xs kept (x ∷ rest) count i
    → get_or xs i 0 ≡ x
Slice-read {kept = kept} {rest = rest} {i = i} x s =
    rw (s.shape, ← append_assoc kept s.junk (x ∷ rest))
      (get_or-append (kept ++ s.junk) rest i x
        (omega (arith, length-append kept s.junk, s.kept_len, s.read_len)))

Slice-skip :
    {xs kept rest : List ℕ} {count i : ℕ} (x : ℕ)
    → Slice xs kept (x ∷ rest) count i
    → Slice xs kept rest count (i + 1)
Slice-skip {kept = kept} {rest = rest} x s = record {
  junk = s.junk ++ (x ∷ []);
  shape = s.shape ∙ ap (λ t. kept ++ t) (rw (append_assoc s.junk (x ∷ []) rest));
  kept_len = s.kept_len;
  read_len = omega (arith, length-append s.junk (x ∷ []), s.read_len);
}

-- `xs[count] = xs[i]`, unless they are one place.
abbrev move : ℕ → ℕ → List ℕ → List ℕ
move i count xs = if i == count then xs else set xs count (get_or xs i 0)

move_shape :
    (kept junk rest : List ℕ) (count i x : ℕ)
    → length kept ≡ count
    → count + length junk ≡ i
    → Slice
        (if i == count
          then kept ++ (junk ++ (x ∷ rest))
          else set (kept ++ (junk ++ (x ∷ rest))) count x)
        (kept ++ (x ∷ []))
        rest
        (count + 1)
        (i + 1)
move_shape kept [] rest count i x h k =
    let e : (i == count) ≡ true = ground arith in
    rw e (record {
      junk = [];
      shape = rw (append_assoc kept (x ∷ []) rest);
      kept_len = omega (arith, length-append kept (x ∷ []));
      read_len = omega arith;
    })
move_shape kept (j ∷ js) rest count i x h k =
    let e : (i == count) ≡ false = ground arith in
    rw (e, set-append kept (js ++ (x ∷ rest)) count j x h)
      (record {
        junk = js ++ (x ∷ []);
        shape =
            rw (
              append_assoc kept (x ∷ []) ((js ++ (x ∷ [])) ++ rest),
              append_assoc js (x ∷ []) rest,
            );
        kept_len = omega (arith, length-append kept (x ∷ []));
        read_len = omega (arith, length-append js (x ∷ []));
      })

Slice-move :
    {xs kept rest : List ℕ} {count i : ℕ} (x : ℕ)
    → Slice xs kept (x ∷ rest) count i
    → Slice (move i count xs) (kept ++ (x ∷ [])) rest (count + 1) (i + 1)
Slice-move {kept = kept} {rest = rest} {count = count} {i = i} x s =
    rw (Slice-read x s) (rw s.shape (move_shape kept s.junk rest count i x s.kept_len s.read_len))

-- The three slices, `rn`, `rt` and `rd` still to be read.
record Cleared (una : ℕ) (kn kt kd rn rt rd : List ℕ) (count i : ℕ) (l : AckList) : Type 0 where
  of_numbers : Slice l.numbers kn rn count i
  of_timestamps : Slice l.timestamps kt rt count i
  of_next_flush : Slice l.next_flush kd rd count i

clear_round_low :
    (una i count n : ℕ) (l : AckList)
    → get_or l.numbers i 0 ≡ n
    → ltb n una ≡ true
    → clear_round una i count l ≡ (count, l)
unfolding clear_round
clear_round_low una i count n l e low = rw (e, low)

clear_round_high :
    (una i count n : ℕ) (l : AckList)
    → get_or l.numbers i 0 ≡ n
    → ltb n una ≡ false
    → clear_round una i count l ≡ (
      count + 1,
      record l {
        numbers = move i count l.numbers;
        timestamps = move i count l.timestamps;
        next_flush = move i count l.next_flush;
      },
    )
unfolding clear_round
clear_round_high una i count n l e high = rw (e, high) (ground (arith, e))

clear_loop_step :
    (k una i count count' : ℕ) (l l' : AckList)
    → clear_round una i count l ≡ (count', l')
    → clear_loop (suc k) una i count l ≡ clear_loop k una (i + 1) count' l'
unfolding clear_loop
clear_loop_step k una i count count' l l' e =
    ap (λ (r : ℕ × AckList). clear_loop k una (i + 1) r.0 r.1) e

clear_loop-Cleared :
    (una : ℕ) (kn kt kd rn rt rd : List ℕ) (count i j : ℕ) (l : AckList)
    → i + length rn ≡ j
    → length rt ≡ length rn
    → length rd ≡ length rn
    → Cleared una kn kt kd rn rt rd count i l
    → let (count', l') = clear_loop (length rn) una i count l in
      Cleared una
        (kn ++ keep una rn rn)
        (kt ++ keep una rn rt)
        (kd ++ keep una rn rd)
        []
        []
        []
        count'
        j
        l'
clear_loop-Cleared una kn kt kd [] [] [] count i j l hj ht hd c =
    let e : i ≡ j = omega arith in
    rw (append-nil kn, append-nil kt, append-nil kd, ← e) (unfold clear_loop in c)
clear_loop-Cleared una kn kt kd [] (t ∷ ts) ds count i j l hj ht hd c = absurd (omega arith)
clear_loop-Cleared una kn kt kd [] [] (d ∷ ds) count i j l hj ht hd c = absurd (omega arith)
clear_loop-Cleared una kn kt kd (n ∷ ns) [] ds count i j l hj ht hd c = absurd (omega arith)
clear_loop-Cleared una kn kt kd (n ∷ ns) (t ∷ ts) [] count i j l hj ht hd c = absurd (omega arith)
clear_loop-Cleared una kn kt kd (n ∷ ns) (t ∷ ts) (d ∷ ds) count i j l hj ht hd c =
    elim (Bool-cases (ltb n una)) [
      | inl low ↦
          rw
            (
              clear_loop_step (length ns) una i count count l l
                  (clear_round_low una i count n l (Slice-read n c.of_numbers) low),
              low,
            )
            (clear_loop-Cleared una kn kt kd ns ts ds count (i + 1) j l (omega arith) (omega arith)
              (omega arith)
              (record {
                of_numbers = Slice-skip n c.of_numbers;
                of_timestamps = Slice-skip t c.of_timestamps;
                of_next_flush = Slice-skip d c.of_next_flush;
              }))
      | inr high ↦
          rw
            (
              clear_loop_step (length ns) una i count _ l _
                  (clear_round_high una i count n l (Slice-read n c.of_numbers) high),
              high,
              ← append_assoc kn (n ∷ []) (keep una ns ns),
              ← append_assoc kt (t ∷ []) (keep una ns ts),
              ← append_assoc kd (d ∷ []) (keep una ns ds),
            )
            (clear_loop-Cleared una (kn ++ (n ∷ [])) (kt ++ (t ∷ [])) (kd ++ (d ∷ [])) ns ts ds
              (count + 1) (i + 1) j _ (omega arith) (omega arith) (omega arith)
              (record {
                of_numbers = Slice-move n c.of_numbers;
                of_timestamps = Slice-move t c.of_timestamps;
                of_next_flush = Slice-move d c.of_next_flush;
              }))
    ]

-- The slices have one length.
pub record IsAligned (l : AckList) : Type 0 where
  pub timestamps_len : length l.timestamps ≡ length l.numbers
  pub next_flush_len : length l.next_flush ≡ length l.numbers

-- A slice with nothing to come holds what is kept, and `take` cuts the rest off.
Slice-take : {xs kept : List ℕ} {count i : ℕ} → Slice xs kept [] count i → take count xs ≡ kept
Slice-take {kept = kept} {count = count} s =
    rw s.shape (take-append count kept (s.junk ++ []) s.kept_len)

Slice-length : {xs kept : List ℕ} {count i : ℕ} → Slice xs kept [] count i → length xs ≡ i
Slice-length {kept = kept} s = rw s.shape (
    omega
      (arith, length-append kept (s.junk ++ []), length-append s.junk [], s.kept_len, s.read_len))

-- Cut or not, as the length of the numbers says, the slice is what is kept.
Slice-cut :
    {xs kept : List ℕ} {count i : ℕ} (whole : ℕ)
    → Slice xs kept [] count i
    → whole ≡ i
    → (if ltb count whole then take count xs else xs) ≡ kept
Slice-cut {xs = xs} {count = count} whole s e = elim (Bool-cases (ltb count whole)) [
  | inl less ↦ rw less (Slice-take s)
  | inr all ↦ rw all (
      sym (take-all count xs (omega (arith, Slice-length s, ltb_false→le count whole all)))
      ∙ Slice-take s)
]

cut-Cleared :
    {una : ℕ} {kn kt kd : List ℕ} {i : ℕ} (count : ℕ) (l : AckList)
    → Cleared una kn kt kd [] [] [] count i l
    → ((cut count l).numbers ≡ kn)
      × ((cut count l).timestamps ≡ kt)
      × ((cut count l).next_flush ≡ kd)
unfolding cut
cut-Cleared count l c =
    let e = Slice-length c.of_numbers in
    ground (
      arith,
      Slice-cut (length l.numbers) c.of_numbers e,
      Slice-cut (length l.numbers) c.of_timestamps e,
      Slice-cut (length l.numbers) c.of_next_flush e,
    )

-- Clearing three slices of one length keeps, in all three alike and in order, exactly the entries
-- whose number is at least `una`, and no others.
pub clear-keep :
    (una : ℕ) (l : AckList)
    → IsAligned l
    → ((clear una l).numbers ≡ keep una l.numbers l.numbers)
      × ((clear una l).timestamps ≡ keep una l.numbers l.timestamps)
      × ((clear una l).next_flush ≡ keep una l.numbers l.next_flush)
unfolding clear
clear-keep una l v = cut-Cleared _ _ (
    clear_loop-Cleared una [] [] [] l.numbers l.timestamps l.next_flush 0 0 (length l.numbers) l
      (omega arith) v.timestamps_len v.next_flush_len
      (record {
        of_numbers = record { junk = []; shape = refl; kept_len = refl; read_len = refl };
        of_timestamps = record { junk = []; shape = refl; kept_len = refl; read_len = refl };
        of_next_flush = record { junk = []; shape = refl; kept_len = refl; read_len = refl };
      }))

pub length-keep :
    (una : ℕ) (ns xs : List ℕ)
    → length xs ≡ length ns
    → length (keep una ns xs) ≡ length (keep una ns ns)
length-keep una [] xs h = refl
length-keep una (n ∷ ns) [] h = absurd (omega arith)
length-keep una (n ∷ ns) (x ∷ xs) h = ground (arith, length-keep una ns xs)
