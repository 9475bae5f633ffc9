-- ===== src/UploadQueue/Packets.antt =====
-- The packets of an upload queue, by their numbers.
use xray_core_python.Prelude.{ℕ, ◌≡◌, ◌≢◌, sym, List, [], ◌∷◌, ltb, All, Bool-cases, inl, inr}
use xray_core_python.UploadQueue.{
  Packet, insert, push_packet, drop_stale, Arrival, arrives, is_closed,
}

-- Packets of which no two have one number.
abbrev pub Apart : List Packet → Type 0
Apart [] = Unit
Apart (p ∷ h) = All (λ q. p.seq ≢ q.seq) h × Apart h

abbrev pub packets_of : List Arrival → List Packet
packets_of [] = []
packets_of (arrives p ∷ arr) = p ∷ packets_of arr
packets_of (is_closed ∷ arr) = packets_of arr

pub All-map :
    (P Q : Packet → Type 0) (h : List Packet) → ((p : Packet) → P p → Q p) → All P h → All Q h
All-map P Q [] f a = tt
All-map P Q (p ∷ h) f (a, b) = (f p a, All-map P Q h f b)

-- What holds of two lists of packets together.
pub All-zip :
    (P Q R : Packet → Type 0) (h : List Packet)
    → ((p : Packet) → P p → Q p → R p)
    → All P h
    → All Q h
    → All R h
All-zip P Q R [] f a b = tt
All-zip P Q R (p ∷ h) f (a, a') (b, b') = (f p a b, All-zip P Q R h f a' b')

pub All-insert :
    (P : Packet → Type 0) (p : Packet) (h : List Packet) → P p → All P h → All P (insert p h)
All-insert P p [] a b = (a, tt)
All-insert P p (q ∷ h) a (b, c) = elim (Bool-cases (ltb p.seq q.seq)) [
  | inl e ↦ rw (e) (a, (b, c))
  | inr e ↦ rw (e) (b, All-insert P p h a c)
]

pub Apart-insert : (p : Packet) (h : List Packet) → Apart (p ∷ h) → Apart (insert p h)
Apart-insert p [] a = a
Apart-insert p (q ∷ h) ((n, a), (b, c)) = elim (Bool-cases (ltb p.seq q.seq)) [
  | inl e ↦ rw (e) ((n, a), (b, c))
  | inr e ↦ rw (e) (All-insert (λ r. q.seq ≢ r.seq) p h (λ f. n (sym f)) b, Apart-insert p h (a, c))
]

pub All-drop_stale :
    (P : Packet → Type 0) (n : ℕ) (h : List Packet) → All P h → All P (drop_stale n h)
All-drop_stale P n [] a = tt
All-drop_stale P n (p ∷ h) (a, b) = elim (Bool-cases (ltb p.seq n)) [
  | inl e ↦ rw (e) (All-drop_stale P n h b)
  | inr e ↦ rw (e) (a, b)
]

pub Apart-drop_stale : (n : ℕ) (h : List Packet) → Apart h → Apart (drop_stale n h)
Apart-drop_stale n [] a = tt
Apart-drop_stale n (p ∷ h) (a, b) = elim (Bool-cases (ltb p.seq n)) [
  | inl e ↦ rw (e) (Apart-drop_stale n h b)
  | inr e ↦ rw (e) (a, b)
]

-- Where no two packets have one number, the heap's order is that of the numbers.
pub push_packet-insert :
    (reorder : List Packet → List Packet)
    → ((h : List Packet) → Apart h → reorder h ≡ h)
    → (p : Packet) (h : List Packet) → Apart (p ∷ h)
    → push_packet reorder p h ≡ insert p h
push_packet-insert reorder settled p h a = settled (insert p h) (Apart-insert p h a)
