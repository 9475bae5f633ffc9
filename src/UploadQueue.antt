-- ===== src/UploadQueue.antt =====
-- xray-go/transport/internet/splithttp/upload_queue.go: packets put in the order of their numbers.
-- A packet that hands over a whole connection is left out.
pub mod Packets
pub mod Order
pub mod Stream
pub mod Bounds
pub mod Ready
pub mod Complete
use xray_core_python.Prelude.{
  ℕ, zero, suc, ◌+◌, ◌-◌, ◌%◌, ◌≡◌, Bool, true, false, Option, none, some, List, [], ◌∷◌, ◌++◌, ltb,
  leb, ◌==◌, if◌then◌else◌, length, take, drop, min,
}

pub record Packet : Type 0 where
  pub payload : List ℕ
  pub seq : ℕ

-- `uploadQueue`, without the channel: what comes from it is an argument.
pub record UploadQueue : Type 0 where
  pub heap : List Packet
  pub next_seq : ℕ
  pub max_packets : ℕ

abbrev pub new_upload_queue : ℕ → UploadQueue
new_upload_queue max_packets = record { heap = []; next_seq = 0; max_packets = max_packets }

-- The heap as the list of its packets in the order in which `heap.Pop` gives them. That is by their
-- numbers; `reorder` is what Go's heap makes of the order of packets that have one number.
abbrev pub insert : Packet → List Packet → List Packet
insert p [] = p ∷ []
insert p (q ∷ h) = let rest = insert p h in if ltb p.seq q.seq then p ∷ (q ∷ h) else q ∷ rest

-- `heap.Push`
abbrev pub push_packet : (List Packet → List Packet) → Packet → List Packet → List Packet
push_packet reorder p h = reorder (insert p h)

-- What a wait for a packet or for the end comes to.
pub data Arrival : Type 0 where
  arrives : Packet → Arrival
  is_closed : Arrival

-- What `Read` returns: bytes, the end, the error of a queue that is too large, or nothing yet, where
-- it waits for an arrival.
pub data ReadAnswer : Type 0 where
  got_bytes : List ℕ → ReadAnswer
  end_of_file too_large waits : ReadAnswer

-- The packet whose turn it is: as much of it as fits, and the rest is pushed back.
abbrev pub deliver :
    (List Packet → List Packet) → ℕ → Packet → UploadQueue → ReadAnswer × UploadQueue
deliver reorder size p q =
    let n = min size (length p.payload) in
    if ltb n (length p.payload)
    then (
      got_bytes (take n p.payload),
      record q { heap = push_packet reorder (record p { payload = drop n p.payload }) q.heap },
    )
    else (got_bytes p.payload, record q { next_seq = (p.seq + 1) % 18446744073709551616 })

-- Packets whose turn is over are popped and dropped.
abbrev pub drop_stale : ℕ → List Packet → List Packet
drop_stale next [] = []
drop_stale next (p ∷ h) = let rest = drop_stale next h in if ltb p.seq next then rest else p ∷ h

-- A packet that came while the loop waits.
abbrev pub with_arrival : (List Packet → List Packet) → Packet → UploadQueue → UploadQueue
with_arrival reorder p q = record q { heap = push_packet reorder p q.heap }

-- The least packet and the rest of the heap: it is delivered, or there are too many packets, or none
-- of these, and the loop waits.
abbrev pub next_step :
    {A : Type 0}
    → (List Packet → List Packet)
    → ℕ
    → Packet
    → List Packet
    → UploadQueue
    → (ReadAnswer → UploadQueue → A)
    → A
    → A
next_step reorder size p h q stop wait =
    if p.seq == q.next_seq
    then (let (answer, q1) = deliver reorder size p (record q { heap = h }) in stop answer q1)
    else if ltb q.max_packets (length h)
    then stop too_large (record q { heap = h })
    else wait

abbrev pub with_least :
    {A : Type 0}
    → (List Packet → List Packet)
    → ℕ
    → List Packet
    → UploadQueue
    → (ReadAnswer → UploadQueue → A)
    → A
    → A
with_least reorder size [] q stop wait = stop (got_bytes []) (record q { heap = [] })
with_least reorder size (p ∷ h) q stop wait = next_step reorder size p h q stop wait

-- The loop of `Read`, with the arrivals to come; it returns those that are left.
unfoldable pub read_rounds :
    (List Packet → List Packet)
    → ℕ
    → List Arrival
    → UploadQueue
    → ReadAnswer × (List Arrival × UploadQueue)
read_rounds reorder size [] q =
    let h = drop_stale q.next_seq q.heap in
    with_least reorder size h q (λ a q1. (a, ([], q1))) (waits, ([], record q { heap = reorder h }))
read_rounds reorder size (is_closed ∷ arr) q =
    let h = drop_stale q.next_seq q.heap in
    with_least reorder size h q (λ a q1. (a, (is_closed ∷ arr, q1)))
      (end_of_file, (arr, record q { heap = reorder h }))
read_rounds reorder size (arrives x ∷ arr) q =
    let h = drop_stale q.next_seq q.heap in
    let rest = read_rounds reorder size arr (with_arrival reorder x (record q { heap = h })) in
    with_least reorder size h q (λ a q1. (a, (arrives x ∷ arr, q1))) rest

-- The wait of `Read` for a first packet.
abbrev pub read_first :
    (List Packet → List Packet)
    → ℕ
    → List Arrival
    → UploadQueue
    → ReadAnswer × (List Arrival × UploadQueue)
read_first reorder size [] q = (waits, ([], q))
read_first reorder size (is_closed ∷ arr) q = (end_of_file, (arr, q))
read_first reorder size (arrives x ∷ arr) q =
    read_rounds reorder size arr (with_arrival reorder x q)

-- `Read` into a slice of a size, when the queue is closed or not.
unfoldable pub read :
    (List Packet → List Packet)
    → ℕ
    → Bool
    → List Arrival
    → UploadQueue
    → ReadAnswer × (List Arrival × UploadQueue)
read reorder size closed arr q =
    if closed
    then (end_of_file, (arr, q))
    else if length q.heap == 0
    then read_first reorder size arr q
    else read_rounds reorder size arr q

abbrev pub bytes_of : ReadAnswer → List ℕ
bytes_of (got_bytes bs) = bs
bytes_of a = []

-- Reads one after the other, each of a size and with the queue closed or not: their bytes together.
abbrev pub run :
    (List Packet → List Packet)
    → List (ℕ × Bool)
    → List Arrival
    → UploadQueue
    → List ℕ × UploadQueue
run reorder [] arr q = ([], q)
run reorder ((size, closed) ∷ rs) arr q =
    let (a, (left, q1)) = read reorder size closed arr q in
    let (bs, q2) = run reorder rs left q1 in (bytes_of a ++ bs, q2)
