-- ===== src/Kcp/Connection/Writing.antt =====
-- connection.go, `writeMultiBufferInternal`: the bytes of one write become packets. The reader is
-- the list of the bytes that it has left; a `bytes.Reader` and a `MultiBufferContainer` alike fill
-- the slice they are given. The wait for output between two runs of the inner loop is not modelled:
-- a caller that is woken runs the loop again with the chunk and the bytes that were left.
use xray_core_python.Prelude.{
  ℕ, zero, suc, ◌+◌, ◌≤◌, ◌<◌, ◌≡◌, refl, sym, ap, ◌∙◌, min, true, false, Option, none, some, List,
  [], ◌∷◌, ◌++◌, map, append_assoc, append-nil, ltb, if◌then◌else◌, length, take, drop,
  take-append-drop, length-take, length-drop, subst, flatten, All, arith, Bool-cases, inl, inr,
}
use xray_core_python.Kcp.Segment.{DataSegment, payload_bytes, buffer_size}
use xray_core_python.Kcp.Sending.Worker.{push}
use xray_core_python.Kcp.Sending.{len, push_segment}
use xray_core_python.Kcp.Connection.{active, is, Connection}

pub data Outcome : Type 0 where
  finished closed_pipe blocked out_of_fuel : Outcome

-- The buffer takes 8192 bytes, and the limited reader gives MSS bytes at most.
abbrev pub chunk_size : Connection → ℕ
chunk_size c = min c.mss buffer_size

-- The chunk to push, and the bytes behind it; `none` where the reader is at its end.
abbrev pub next_chunk : ℕ → List ℕ → Option (List ℕ) → Option (List ℕ × List ℕ)
next_chunk size rest (some b) = some (b, rest)
next_chunk zero rest none = none
next_chunk (suc n) [] none = none
next_chunk (suc n) (x ∷ rest) none = some (x ∷ take n rest, drop n rest)

-- The connection after a chunk was pushed. The deferred `WakeUp` is noted at once.
abbrev pub pushed : List ℕ → Connection → Connection
pushed chunk c = record c { sending = (push chunk c.sending).0; data_awake = true }

-- The inner loop, on fuel. What is left of the bytes, and the chunk that waits.
unfoldable pub write_loop :
    ℕ → List ℕ → Option (List ℕ) → Connection → Outcome × List ℕ × Option (List ℕ) × Connection
write_loop zero rest b c = (out_of_fuel, rest, b, c)
write_loop (suc fuel) rest b c =
    if is c.state active
    then (elim (next_chunk (chunk_size c) rest b) [
      | none ↦ (finished, rest, none, c)
      | some (chunk, rest1) ↦
          let again = write_loop fuel rest1 none (pushed chunk c) in
          if (push chunk c.sending).1 then again else (blocked, rest1, some chunk, c)
    ])
    else (closed_pipe, rest, b, c)

-- The first run of the loop for a write.
unfoldable pub write_all : List ℕ → Connection → Outcome × List ℕ × Option (List ℕ) × Connection
unfolding write_loop
write_all bytes c = write_loop (length bytes + 1) bytes none c

write_closed :
    (fuel : ℕ) (rest : List ℕ) (b : Option (List ℕ)) (c : Connection)
    → is c.state active ≡ false
    → write_loop (suc fuel) rest b c ≡ (closed_pipe, rest, b, c)
unfolding write_loop
write_closed fuel rest b c s = rw s refl

write_finished :
    (fuel : ℕ) (rest : List ℕ) (c : Connection)
    → is c.state active ≡ true
    → next_chunk (chunk_size c) rest none ≡ none
    → write_loop (suc fuel) rest none c ≡ (finished, rest, none, c)
unfolding write_loop
write_finished fuel rest c s e = rw (s, e) refl

write_pushed :
    (fuel : ℕ) (rest rest1 chunk : List ℕ) (b : Option (List ℕ)) (c : Connection)
    → is c.state active ≡ true
    → next_chunk (chunk_size c) rest b ≡ some (chunk, rest1)
    → (push chunk c.sending).1 ≡ true
    → write_loop (suc fuel) rest b c ≡ write_loop fuel rest1 none (pushed chunk c)
unfolding write_loop
write_pushed fuel rest rest1 chunk b c s e t = rw (s, e, t) refl

write_blocked :
    (fuel : ℕ) (rest rest1 chunk : List ℕ) (b : Option (List ℕ)) (c : Connection)
    → is c.state active ≡ true
    → next_chunk (chunk_size c) rest b ≡ some (chunk, rest1)
    → (push chunk c.sending).1 ≡ false
    → write_loop (suc fuel) rest b c ≡ (blocked, rest1, some chunk, c)
unfolding write_loop
write_blocked fuel rest rest1 chunk b c s e t = rw (s, e, t) refl

next_chunk_end : (n : ℕ) → next_chunk n [] none ≡ none
next_chunk_end zero = refl
next_chunk_end (suc n) = refl

next_chunk_more :
    (n x : ℕ) (rest : List ℕ)
    → 1 ≤ n
    → next_chunk n (x ∷ rest) none ≡ some (take n (x ∷ rest), drop n (x ∷ rest))
next_chunk_more zero x rest h = absurd (omega arith)
next_chunk_more (suc n) x rest h = refl

map-append_one :
    (l : List DataSegment) (seg : DataSegment)
    → map payload_bytes (l ++ (seg ∷ [])) ≡ map payload_bytes l ++ (payload_bytes seg ∷ [])
map-append_one [] seg = refl
map-append_one (x ∷ l) seg = ap (λ t. payload_bytes x ∷ t) (map-append_one l seg)

-- The payloads that the sending window holds.
abbrev pub payloads : Connection → List (List ℕ)
payloads c = map payload_bytes c.sending.window.cache

payloads-pushed :
    (chunk : List ℕ) (c : Connection)
    → (push chunk c.sending).1 ≡ true
    → payloads (pushed chunk c) ≡ payloads c ++ (chunk ∷ [])
unfolding push push_segment
payloads-pushed chunk c t = elim (Bool-cases c.sending.closed) [
  | inl e ↦ absurd (ground arith)
  | inr e ↦ elim (Bool-cases (ltb c.sending.window_size (len c.sending.window))) [
    | inl f ↦ absurd (ground arith)
    | inr f ↦ rw (e, f) (map-append_one c.sending.window.cache _)
  ]
]

abbrev pub waiting : Option (List ℕ) → List ℕ
waiting none = []
waiting (some chunk) = chunk

-- Why the loop stops: all is pushed, or the connection is not active, or the buffer took no more.
abbrev pub Ending : Outcome → List ℕ → Option (List ℕ) → Connection → Type 0
Ending finished rest b c = (rest ≡ []) × (b ≡ none)
Ending closed_pipe rest b c = is c.state active ≡ false
Ending blocked rest b c = (chunk : List ℕ) × (b ≡ some chunk) × ((push chunk c.sending).1 ≡ false)
Ending out_of_fuel rest b c = ⊥

pub record Sent (c : Connection) (bytes : List ℕ) (o : Outcome) (rest : List ℕ)
    (b : Option (List ℕ)) (c' : Connection) : Type 0 where
  pub chunks : List (List ℕ)
  pub balance : flatten chunks ++ (waiting b ++ rest) ≡ bytes
  pub sizes : All (λ (x : List ℕ). length x ≤ chunk_size c) chunks
  pub stored : payloads c' ≡ payloads c ++ chunks
  pub ending : Ending o rest b c'

nothing-Sent :
    (c : Connection) (bytes : List ℕ) (o : Outcome) (rest : List ℕ) (b : Option (List ℕ))
    → waiting b ++ rest ≡ bytes
    → Ending o rest b c
    → Sent c bytes o rest b c
nothing-Sent c bytes o rest b e ending = record {
  chunks = [];
  balance = e;
  sizes = tt;
  stored = sym (append-nil (payloads c));
  ending = ending;
}

one-Sent :
    (c c' : Connection) (chunk bytes rest : List ℕ) (o : Outcome) (b : Option (List ℕ))
    → length chunk ≤ chunk_size c
    → (push chunk c.sending).1 ≡ true
    → Sent (pushed chunk c) bytes o rest b c'
    → Sent c (chunk ++ bytes) o rest b c'
one-Sent c c' chunk bytes rest o b small t s = record {
  chunks = chunk ∷ s.chunks;
  balance =
      append_assoc chunk (flatten s.chunks) (waiting b ++ rest) ∙ ap (λ t. chunk ++ t) s.balance;
  sizes = (small, s.sizes);
  stored =
      s.stored
      ∙ ap (λ t. t ++ s.chunks) (payloads-pushed chunk c t)
      ∙ append_assoc (payloads c) (chunk ∷ []) s.chunks;
  ending = s.ending;
}

abbrev SentBy : Connection → List ℕ → Outcome × List ℕ × Option (List ℕ) × Connection → Type 0
SentBy c bytes (o, rest, b, c') = Sent c bytes o rest b c'

-- A round that has bytes left, given what the rounds after it send.
write_more :
    (fuel x : ℕ) (bytes : List ℕ) (c : Connection)
    → 1 ≤ chunk_size c
    → is c.state active ≡ true
    → SentBy (pushed (take (chunk_size c) (x ∷ bytes)) c) (drop (chunk_size c) (x ∷ bytes)) (
        write_loop fuel
          (drop (chunk_size c) (x ∷ bytes))
          none
          (pushed (take (chunk_size c) (x ∷ bytes)) c))
    → SentBy c (x ∷ bytes) (write_loop (suc fuel) (x ∷ bytes) none c)
write_more fuel x bytes c h s rest =
    let n = chunk_size c in
    let chunk = take n (x ∷ bytes) in
    let next = next_chunk_more n x bytes h in
    let split = take-append-drop n (x ∷ bytes) in
    elim (Bool-cases (push chunk c.sending).1) [
      | inl t ↦ rw (write_pushed fuel (x ∷ bytes) (drop n (x ∷ bytes)) chunk none c s next t) (
          subst (λ y. SentBy c y (write_loop fuel (drop n (x ∷ bytes)) none (pushed chunk c))) split
            (one-Sent c _ chunk (drop n (x ∷ bytes)) _ _ _
              (omega (arith, length-take n (x ∷ bytes))) t rest))
      | inr f ↦ rw (write_blocked fuel (x ∷ bytes) (drop n (x ∷ bytes)) chunk none c s next f) (
          nothing-Sent c (x ∷ bytes) blocked (drop n (x ∷ bytes)) (some chunk) split
            (chunk, refl, f))
    ]

write_loop-Sent :
    (fuel : ℕ) (bytes : List ℕ) (c : Connection)
    → 1 ≤ chunk_size c
    → length bytes < fuel
    → SentBy c bytes (write_loop fuel bytes none c)
write_loop-Sent zero bytes c h l = absurd (omega arith)
write_loop-Sent (suc fuel) [] c h l = elim (Bool-cases (is c.state active)) [
  | inr s ↦ rw (write_closed fuel [] none c s) (nothing-Sent c [] closed_pipe [] none refl s)
  | inl s ↦
      rw (write_finished fuel [] c s (next_chunk_end (chunk_size c)))
        (nothing-Sent c [] finished [] none refl (refl, refl))
]
write_loop-Sent (suc fuel) (x ∷ bytes) c h l = elim (Bool-cases (is c.state active)) [
  | inr s ↦
      rw (write_closed fuel (x ∷ bytes) none c s)
        (nothing-Sent c (x ∷ bytes) closed_pipe (x ∷ bytes) none refl s)
  | inl s ↦ write_more fuel x bytes c h s (
      write_loop-Sent fuel (drop (chunk_size c) (x ∷ bytes))
        (pushed (take (chunk_size c) (x ∷ bytes)) c) h
        (omega (arith, length-drop (chunk_size c) (x ∷ bytes))))
]

-- With an MSS of 1 at least, a write never runs out of rounds. The bytes that went into the sending
-- window, as packets of MSS bytes at most, those of the chunk that waits and those not read are, in
-- order, the bytes of the write; the packets are behind those that the window held. It ends with
-- all bytes in the window, or with a connection that is not active, or with a chunk that the window
-- does not take.
pub write_all-Sent :
    (bytes : List ℕ) (c : Connection)
    → 1 ≤ c.mss
    → let (o, rest, b, c') = write_all bytes c in Sent c bytes o rest b c'
unfolding write_all
write_all-Sent bytes c h = write_loop-Sent (length bytes + 1) bytes c (omega arith) (omega arith)
