-- ===== src/Sender/Queued.antt =====
-- What `enqueue_data` stores (crates/protocol/src/sender.rs).
use udpix.Base.{
  ℕ, ◌+◌, ◌-◌, ◌^◌, ◌≤◌, ◌<◌, ◌≡◌, refl, sym, ap, ap₂, ◌∙◌, List, [], ◌∷◌, ◌++◌, some, length, drop,
  replicate, All, All-append, take-append_left, drop-append_left, arith, ne→==, append-nil,
  append_assoc,
}
use udpix.Base.Bytes.{u16, u64}
use udpix.Packet.{IsHeader, new_data, read_from, header_bytes, header_size}
use udpix.Packet.RoundTrip.{write_to_blank, read_from-header_bytes, length-header_bytes}
use udpix.Sender.State.{Sender, InFlightEntry, InFlight, insert}
use udpix.Sender.Chunks.{chunks, concat, IsChunk, concat-chunks, chunks-IsChunk}
use udpix.Sender.Enqueue.{data_datagram, enqueue_chunk, enqueue_chunks, enqueue_data}

-- Every number in the map is below `n`.
abbrev pub Below : ℕ → InFlight → Type 0
Below n m = All (λ (e : ℕ × InFlightEntry). e.0 < n) m

-- A datagram that parses as the data packet with this number and brings this chunk.
abbrev pub Carries : ℕ → ℕ → ℕ → List ℕ → List ℕ → Type 0
Carries session_id seq ts chunk datagram =
    (read_from datagram ≡ some (new_data session_id seq ts (length chunk)))
    × (drop header_size datagram ≡ chunk)

-- The entries bring the chunks in order, under consecutive numbers, with no gap reported yet.
abbrev pub Queued : ℕ → (ℕ → ℕ) → ℕ → List (List ℕ) → InFlight → Type 0
Queued session_id ts n [] [] = Unit {0}
Queued session_id ts n [] (e ∷ m) = ⊥
Queued session_id ts n (c ∷ cs) [] = ⊥
Queued session_id ts n (c ∷ cs) ((seq, e) ∷ m) =
    (seq ≡ n)
    × (e.nak_count ≡ 0)
    × Carries session_id n (ts n) c e.datagram
    × Queued session_id ts (n + 1) cs m

-- The bytes behind the headers, one datagram after the other.
abbrev pub payload_of : InFlight → List ℕ
payload_of [] = []
payload_of ((seq, e) ∷ m) = drop header_size e.datagram ++ payload_of m

insert_fresh :
    (n : ℕ) (e : InFlightEntry) (m : InFlight) → Below n m → insert n e m ≡ m ++ ((n, e) ∷ [])
unfolding insert
insert_fresh n e [] h = refl
insert_fresh n e ((k, x) ∷ m) (low, h) =
    rw (ne→== k n (omega arith)) (ap (λ (t : InFlight). (k, x) ∷ t) (insert_fresh n e m h))

Below-mono : (n k : ℕ) (m : InFlight) → n ≤ k → Below n m → Below k m
Below-mono n k [] le h = tt
Below-mono n k (e ∷ m) le (low, h) = (omega arith, Below-mono n k m le h)

pub data_datagram_lem :
    (session_id seq ts : ℕ) (chunk : List ℕ)
    → length chunk < 2 ^ 16
    → data_datagram session_id seq ts chunk
      ≡ some (header_bytes (new_data session_id seq ts (length chunk)) ++ chunk)
unfolding data_datagram
data_datagram_lem session_id seq ts chunk small =
    let fits : u16 (length chunk) ≡ length chunk = omega arith in
    let h = new_data session_id seq ts (length chunk) in
    let blank = drop header_size (replicate (header_size + length chunk) 0) in
    rw (fits, write_to_blank h (length chunk))
      (ap (λ (bs : List ℕ). some (bs ++ chunk))
        (take-append_left (header_bytes h) blank header_size (sym (length-header_bytes h))))

new_data-IsHeader :
    (session_id seq ts n : ℕ)
    → session_id < 2 ^ 32
    → seq < 2 ^ 64
    → ts < 2 ^ 64
    → n < 2 ^ 16
    → IsHeader (new_data session_id seq ts n)
unfolding new_data
new_data-IsHeader session_id seq ts n a b c d = record {
  session_id_fits = a;
  sequence_number_fits = b;
  timestamp_us_fits = c;
  flags_fits = omega arith;
  payload_len_fits = d;
  fec_group_id_fits = omega arith;
  fec_index_fits = omega arith;
  fec_group_size_fits = omega arith;
}

pub carries_lem :
    (session_id seq ts : ℕ) (chunk : List ℕ)
    → session_id < 2 ^ 32
    → seq < 2 ^ 64
    → ts < 2 ^ 64
    → length chunk < 2 ^ 16
    → Carries session_id seq ts chunk
        (header_bytes (new_data session_id seq ts (length chunk)) ++ chunk)
carries_lem session_id seq ts chunk a b c d =
    let h = new_data session_id seq ts (length chunk) in
    (
      read_from-header_bytes h chunk (new_data-IsHeader session_id seq ts (length chunk) a b c d),
      drop-append_left (header_bytes h) chunk header_size (sym (length-header_bytes h)),
    )

module _ (now ts : ℕ → ℕ) where
  -- What the entry of one chunk is.
  abbrev entry_of : ℕ → ℕ → List ℕ → InFlightEntry
  entry_of session_id n chunk = record {
    datagram = header_bytes (new_data session_id n (ts n) (length chunk)) ++ chunk;
    last_sent = now n - 1000000000;
    nak_count = 0;
  }

  abbrev entries : ℕ → ℕ → List (List ℕ) → InFlight
  entries session_id n [] = []
  entries session_id n (c ∷ cs) = (n, entry_of session_id n c) ∷ entries session_id (n + 1) cs

module _ {Float : Type 0} (now ts : ℕ → ℕ) where
  enqueue_chunk_lem :
      (s : Sender Float) (c : List ℕ)
      → Below s.next_seq s.in_flight
      → s.next_seq + 1 < 2 ^ 64
      → length c < 2 ^ 16
      → enqueue_chunk now ts s c
        ≡ some (record s {
          in_flight = s.in_flight ++ ((s.next_seq, entry_of now ts s.session_id s.next_seq c) ∷ []);
          next_seq = s.next_seq + 1;
        })
  unfolding enqueue_chunk
  enqueue_chunk_lem s c below room small =
      let next : u64 (s.next_seq + 1) ≡ s.next_seq + 1 = omega arith in
      rw (data_datagram_lem s.session_id s.next_seq (ts s.next_seq) c small) (
        ap₂ (λ (m : InFlight) (n : ℕ). some (record s { in_flight = m; next_seq = n }))
          (insert_fresh s.next_seq (entry_of now ts s.session_id s.next_seq c) s.in_flight below)
          next)

  enqueue_chunks_lem :
      (cs : List (List ℕ)) (s : Sender Float)
      → Below s.next_seq s.in_flight
      → s.next_seq + length cs < 2 ^ 64
      → All IsChunk cs
      → enqueue_chunks now ts cs s
        ≡ some (record s {
          in_flight = s.in_flight ++ entries now ts s.session_id s.next_seq cs;
          next_seq = s.next_seq + length cs;
        })
  unfolding enqueue_chunks
  enqueue_chunks_lem [] s below room sizes =
      ap₂ (λ (m : InFlight) (n : ℕ). some (record s { in_flight = m; next_seq = n }))
        (sym (append-nil s.in_flight)) (omega arith)
  enqueue_chunks_lem (c ∷ cs) s below room ((some_bytes, small), sizes) =
      let one = enqueue_chunk_lem s c below (omega arith) (omega arith) in
      let m = s.in_flight ++ ((s.next_seq, entry_of now ts s.session_id s.next_seq c) ∷ []) in
      let s' : Sender Float = record s { in_flight = m; next_seq = s.next_seq + 1 } in
      let below' : Below (s.next_seq + 1) m =
        All-append (λ (e : ℕ × InFlightEntry). e.0 < s.next_seq + 1) s.in_flight
          ((s.next_seq, entry_of now ts s.session_id s.next_seq c) ∷ [])
          (Below-mono s.next_seq (s.next_seq + 1) s.in_flight (omega arith) below)
          (omega arith, tt) in
      let rest = enqueue_chunks_lem cs s' below' (omega arith) sizes in
      rw (one, rest)
        (ap₂ (λ (m : InFlight) (n : ℕ). some (record s { in_flight = m; next_seq = n }))
          (append_assoc s.in_flight ((s.next_seq, entry_of now ts s.session_id s.next_seq c) ∷ [])
            (entries now ts s.session_id (s.next_seq + 1) cs))
          (omega arith))

entries_lem :
    (now ts : ℕ → ℕ) (session_id n : ℕ) (cs : List (List ℕ))
    → session_id < 2 ^ 32
    → ((k : ℕ) → ts k < 2 ^ 64)
    → n + length cs < 2 ^ 64
    → All IsChunk cs
    → Queued session_id ts n cs (entries now ts session_id n cs)
      × (payload_of (entries now ts session_id n cs) ≡ concat cs)
entries_lem now ts session_id n [] a b room sizes = (tt, refl)
entries_lem now ts session_id n (c ∷ cs) a b room ((some_bytes, small), sizes) =
    let carries = carries_lem session_id n (ts n) c a (omega arith) (b n) (omega arith) in
    let (queued, bytes) = entries_lem now ts session_id (n + 1) cs a b (omega arith) sizes in
    ((refl, refl, carries, queued), ap₂ (λ (x y : List ℕ). x ++ y) carries.1 bytes)

-- A payload is stored as a run of new entries behind the old ones. They have consecutive numbers
-- from the next one on, each datagram parses as the data packet with its number and the length of
-- its chunk, and the bytes behind the headers put together are the payload. It holds as long as
-- the numbers in flight are below the next one and the new ones fit 64 bits.
pub enqueue_data_lem :
    {Float : Type 0} (now ts : ℕ → ℕ) (s : Sender Float) (payload : List ℕ)
    → s.session_id < 2 ^ 32
    → ((k : ℕ) → ts k < 2 ^ 64)
    → Below s.next_seq s.in_flight
    → s.next_seq + length (chunks payload) < 2 ^ 64
    → (m : InFlight) × (enqueue_data now ts s payload
        ≡ some (record s {
          in_flight = s.in_flight ++ m;
          next_seq = s.next_seq + length (chunks payload);
        }))
      × Queued s.session_id ts s.next_seq (chunks payload) m
      × (payload_of m ≡ payload)
unfolding enqueue_data
enqueue_data_lem now ts s payload a b below room =
    let sizes = chunks-IsChunk payload in
    let (queued, bytes) =
      entries_lem now ts s.session_id s.next_seq (chunks payload) a b room sizes in
    (
      entries now ts s.session_id s.next_seq (chunks payload),
      enqueue_chunks_lem now ts (chunks payload) s below room sizes,
      queued,
      bytes ∙ concat-chunks payload,
    )
