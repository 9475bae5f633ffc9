-- ===== src/Kcp/AckList.antt =====
-- xray-go/transport/internet/kcp/receiving.go, AckList: the packet numbers to acknowledge, in
-- three slices of equal length, and when each is due again.
pub mod Compact
pub mod Flush
use xray_core_python.Prelude.{
  ℕ, zero, suc, ◌+◌, ◌-◌, ◌/◌, ◌%◌, ◌^◌, Bool, true, false, ◌&&◌, ◌||◌, not, List, [], ◌∷◌, ◌++◌,
  ltb, leb, ◌==◌, if◌then◌else◌, length, get_or, set, take, u32,
}
use xray_core_python.Kcp.Segment.{
  AckSegment, new_ack_segment, put_number, put_timestamp, is_full, is_empty,
}

pub record AckList : Type 0 where
  pub timestamps : List ℕ
  pub numbers : List ℕ
  pub next_flush : List ℕ
  pub flush_candidates : List ℕ
  pub dirty : Bool
  pub mss : ℕ

-- The capacity that `flushCandidates` is made with, and keeps.
abbrev pub candidates_cap : ℕ
candidates_cap = 128

unfoldable pub new_ack_list : ℕ → AckList
new_ack_list mss = record {
  timestamps = [];
  numbers = [];
  next_flush = [];
  flush_candidates = [];
  dirty = false;
  mss = mss;
}

unfoldable pub add : ℕ → ℕ → AckList → AckList
add number timestamp l = record l {
  timestamps = l.timestamps ++ (timestamp ∷ []);
  numbers = l.numbers ++ (number ∷ []);
  next_flush = l.next_flush ++ (0 ∷ []);
  dirty = true;
}

-- One round of the loop of `Clear` at `i`, with `count` entries kept so far. Indices are in range
-- while the slices have one length: a read out of range, which panics in Go, is 0 here.
clear_round : ℕ → ℕ → ℕ → AckList → ℕ × AckList
clear_round una i count l = if ltb (get_or l.numbers i 0) una then (count, l) else (
  count + 1,
  if i == count then l else record l {
    numbers = set l.numbers count (get_or l.numbers i 0);
    timestamps = set l.timestamps count (get_or l.timestamps i 0);
    next_flush = set l.next_flush count (get_or l.next_flush i 0);
  },
)

-- The loop, by the rounds left.
clear_loop : ℕ → ℕ → ℕ → ℕ → AckList → ℕ × AckList
clear_loop zero una i count l = (count, l)
clear_loop (suc n) una i count l =
    let (count', l') = clear_round una i count l in clear_loop n una (i + 1) count' l'

-- What follows the loop: the slices are cut to what is kept.
cut : ℕ → AckList → AckList
cut count l =
    if ltb count (length l.numbers)
    then record l {
      numbers = take count l.numbers;
      timestamps = take count l.timestamps;
      next_flush = take count l.next_flush;
      dirty = true;
    }
    else l

unfoldable pub clear : ℕ → AckList → AckList
unfolding clear_loop clear_round cut
clear una l = let (count, l') = clear_loop (length l.numbers) una 0 0 l in cut count l'

-- `(int(l.mss) - 17) / 4`: Go's quotient of a negative number is at most 0, as is the limit then.
abbrev pub ack_limit : ℕ → ℕ
ack_limit mss = (mss - 17) / 4

-- The state of the loop of `Flush`: the segment being filled, those written, what is put off.
pub record Flushing : Type 0 where
  pub seg : AckSegment
  pub written : List AckSegment
  pub candidates : List ℕ
  pub dirty : Bool

-- `if seg.IsFull()`: the segment is written, and a new one begun.
write_if_full : ℕ → Flushing → Flushing
write_if_full mss f =
    if is_full f.seg
    then record f {
      seg = new_ack_segment (ack_limit mss);
      written = f.written ++ (f.seg ∷ []);
      dirty = false;
    }
    else f

resend_after : ℕ → ℕ
resend_after rto = let timeout = rto / 2 in if ltb timeout 20 then 20 else timeout

-- One round: the state after it, and the entry's new flush time.
flush_round : ℕ → ℕ → ℕ → ℕ → ℕ → ℕ → Flushing → Flushing × ℕ
flush_round mss current rto number timestamp due f =
    if ltb current due
    then (
      if ltb (length f.candidates) candidates_cap
          then record f { candidates = f.candidates ++ (number ∷ []) }
          else f,
      due,
    )
    else (
      write_if_full mss (record f { seg = put_timestamp timestamp (put_number number f.seg) }),
      u32 (current + resend_after rto),
    )

-- The loop over the three slices at once.
flush_loop : ℕ → ℕ → ℕ → List ℕ → List ℕ → List ℕ → Flushing → Flushing × List ℕ
flush_loop mss current rto (n ∷ ns) (t ∷ ts) (d ∷ ds) f =
    let (f', due) = flush_round mss current rto n t d f in
    let (f'', dues) = flush_loop mss current rto ns ts ds f' in (f'', due ∷ dues)
flush_loop mss current rto ns ts ds f = (f, ds)

-- The loop over the candidates, up to the `break` at a full segment.
fill : List ℕ → AckSegment → AckSegment
fill [] seg = seg
fill (n ∷ ns) seg = let more = fill ns (put_number n seg) in if is_full seg then seg else more

-- Whether a last segment is written, full or not, and the segments written with it.
wants_last : Flushing → Bool
wants_last f = f.dirty || not (is_empty f.seg)

all_written : Flushing → List AckSegment
unfolding fill wants_last
all_written f = if wants_last f then f.written ++ (fill f.candidates f.seg ∷ []) else f.written

-- The list after `Flush`, and the segments that it writes, in order.
unfoldable pub flush : ℕ → ℕ → AckList → AckList × List AckSegment
unfolding flush_loop flush_round write_if_full resend_after put_number all_written
flush current rto l =
    let start : Flushing = record {
      seg = new_ack_segment (ack_limit l.mss);
      written = [];
      candidates = [];
      dirty = l.dirty;
    } in
    let (f, dues) = flush_loop l.mss current rto l.numbers l.timestamps l.next_flush start in
    (
      record l {
        next_flush = dues;
        flush_candidates = f.candidates;
        dirty = if wants_last f then false else f.dirty;
      },
      all_written f,
    )
