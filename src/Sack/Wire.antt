-- ===== src/Sack/Wire.antt =====
-- `serialise` against `deserialise` (crates/protocol/src/sack.rs).
use udpix.Base.{
  ℕ, zero, suc, ◌+◌, ◌-◌, ◌*◌, ◌≤◌, ◌<◌, ◌≡◌, refl, sym, ap, ap₂, ◌∙◌, ◌↔◌, List, [], ◌∷◌, ◌++◌,
  none, some, length, get_or, set, take, drop, slice, replicate, All, arith, lt→ltb, append_assoc,
}
use udpix.Base.{length-append, length-take, All-take, drop-drop, length-set}
use udpix.Base.Bytes.{to_le_bytes, from_le_bytes, from_le_bytes-to_le_bytes}
use udpix.Sack.Payload.{
  SackPayload, IsPayload, sack_words, wire_size, serialise_words, serialise, parsed, panicked,
  fill_words, deserialise,
}
use udpix.Sack.Flags.{IsWord}

-- The first `n` words as `serialise` writes them.
word_bytes : List ℕ → List ℕ
word_bytes [] = []
word_bytes (w ∷ ws) = to_le_bytes 8 w ++ word_bytes ws

length-word_bytes : (ws : List ℕ) → length (word_bytes ws) ≡ length ws * 8
unfolding word_bytes
length-word_bytes [] = refl
length-word_bytes (w ∷ ws) = omega (arith, length-word_bytes ws)

serialise_words-eq :
    (n : ℕ) (ws : List ℕ) → n ≤ length ws → serialise_words n ws ≡ some (word_bytes (take n ws))
unfolding serialise_words word_bytes
serialise_words-eq zero ws h = refl
serialise_words-eq (suc n) [] h = absurd (omega arith)
serialise_words-eq (suc n) (w ∷ ws) h = rw (serialise_words-eq n ws (omega arith))

set-append_zero :
    (done : List ℕ) (i k v : ℕ)
    → i ≡ length done
    → set (done ++ replicate (suc k) 0) i v ≡ (done ++ (v ∷ [])) ++ replicate k 0
set-append_zero [] zero k v h = refl
set-append_zero [] (suc i) k v h = absurd (omega arith)
set-append_zero (d ∷ done) zero k v h = absurd (omega arith)
set-append_zero (d ∷ done) (suc i) k v h = ap (◌∷◌ d) (set-append_zero done i k v (omega arith))

-- The loop, with the words `done` read and `ws` still in the bytes.
fill_words-word_bytes :
    (ws done bytes rest : List ℕ) (i room k : ℕ)
    → i ≡ length done
    → room ≡ length ws + k
    → All IsWord ws
    → drop (9 + i * 8) bytes ≡ word_bytes ws ++ rest
    → fill_words (length ws) i bytes (done ++ replicate room 0)
      ≡ some (done ++ (ws ++ replicate k 0))
unfolding fill_words word_bytes
fill_words-word_bytes [] done bytes rest i room k at fits words here =
    let same : room ≡ k = omega arith in ap (λ (n : ℕ). some (done ++ replicate n 0)) same
fill_words-word_bytes (w ∷ ws) done bytes rest i zero k at fits words here = absurd (omega arith)
fill_words-word_bytes (w ∷ ws) done bytes rest i (suc room) k at fits words here =
    rw (lt→ltb i (length (done ++ replicate (suc room) 0)) inside) (
      ap (fill_words (length ws) (i + 1) bytes) stored
      ∙ fill_words-word_bytes ws (done ++ (w ∷ [])) bytes rest (i + 1) room k
          (omega (arith, length-append done (w ∷ []))) (omega arith) words.1 next
      ∙ ap some (append_assoc done (w ∷ []) (ws ++ replicate k 0)))
  where
    inside : i < length (done ++ replicate (suc room) 0)
    inside = omega (arith, length-append done (replicate (suc room) 0))

    word : from_le_bytes (slice bytes (9 + i * 8) 8) ≡ w
    word =
        ap (λ (xs : List ℕ). from_le_bytes (take 8 xs)) here ∙ from_le_bytes-to_le_bytes 8 w words.0

    stored :
        set (done ++ replicate (suc room) 0) i (from_le_bytes (slice bytes (9 + i * 8) 8))
        ≡ (done ++ (w ∷ [])) ++ replicate room 0
    stored = ap (set (done ++ replicate (suc room) 0) i) word ∙ set-append_zero done i room w at

    further : 9 + i * 8 + 8 ≡ 9 + (i + 1) * 8
    further = omega arith

    next : drop (9 + (i + 1) * 8) bytes ≡ word_bytes ws ++ rest
    next =
        ap (λ (k : ℕ). drop k bytes) (sym further)
        ∙ sym (drop-drop (9 + i * 8) 8 bytes)
        ∙ ap (drop 8) here

-- Zeros behind the first `n` words make the words what `n` of them and zeros are.
take-zeros :
    (n k : ℕ) (ws : List ℕ)
    → length ws ≡ n + k
    → ((i : ℕ) → n ≤ i → get_or ws i 0 ≡ 0)
    → take n ws ++ replicate k 0 ≡ ws
take-zeros zero zero [] e h = refl
take-zeros zero (suc k) [] e h = absurd (omega arith)
take-zeros (suc n) k [] e h = absurd (omega arith)
take-zeros zero zero (w ∷ ws) e h = absurd (omega arith)
take-zeros zero (suc k) (w ∷ ws) e h =
    ap₂ ◌∷◌ (sym (h 0 (omega arith)))
      (take-zeros zero k ws (omega arith) (λ i _. h (suc i) (omega arith)))
take-zeros (suc n) k (w ∷ ws) e h =
    ap (◌∷◌ w) (take-zeros n k ws (omega arith) (λ i le. h (suc i) (omega arith)))

-- What `serialise` appends.
abbrev payload_bytes : SackPayload → List ℕ
payload_bytes p =
    to_le_bytes 8 p.base_seq ++ (p.word_count ∷ word_bytes (take p.word_count p.words))

serialise-eq :
    (p : SackPayload) (buf : List ℕ) → IsPayload p → serialise p buf ≡ some (buf ++ payload_bytes p)
unfolding serialise
serialise-eq p buf v =
    rw (serialise_words-eq p.word_count p.words (omega (arith, v.sixteen, v.count_fits)))

length-payload_bytes :
    (p : SackPayload) → IsPayload p → length (payload_bytes p) ≡ 9 + p.word_count * 8
length-payload_bytes p v = omega (
  arith,
  length-word_bytes (take p.word_count p.words),
  length-take p.word_count p.words,
  v.sixteen,
  v.count_fits,
)

deserialise-payload_bytes :
    (p : SackPayload) (rest : List ℕ)
    → IsPayload p
    → deserialise (payload_bytes p ++ rest) ≡ parsed p (wire_size p)
unfolding deserialise wire_size
deserialise-payload_bytes p rest v = ground (
  arith,
  length-append (payload_bytes p) rest,
  length-payload_bytes p v,
  filled,
  from_le_bytes-to_le_bytes 8 p.base_seq v.base_fits,
)
  where
    taken : length (take p.word_count p.words) ≡ p.word_count
    taken = omega (arith, length-take p.word_count p.words, v.sixteen, v.count_fits)

    total : length p.words ≡ p.word_count + (sack_words - p.word_count)
    total = omega (arith, v.sixteen, v.count_fits)

    filled :
        fill_words p.word_count 0 (payload_bytes p ++ rest) (replicate sack_words 0) ≡ some p.words
    filled =
        ap (λ (n : ℕ). fill_words n 0 (payload_bytes p ++ rest) (replicate sack_words 0))
          (sym taken)
        ∙ fill_words-word_bytes (take p.word_count p.words) [] (payload_bytes p ++ rest) rest 0
            sack_words (sack_words - p.word_count) refl (omega (arith, taken, total, v.sixteen))
            (All-take IsWord p.word_count p.words v.words_fit) refl
        ∙ ap some (take-zeros p.word_count (sack_words - p.word_count) p.words total v.zero_behind)

-- What `serialise` appends to a buffer is read back whole, whatever follows it, and as many bytes
-- are consumed as were written.
pub deserialise-serialise :
    (p : SackPayload) (buf rest : List ℕ)
    → IsPayload p
    → (wire : List ℕ) × (serialise p buf ≡ some (buf ++ wire))
      × (length wire ≡ wire_size p)
      × (deserialise (wire ++ rest) ≡ parsed p (wire_size p))
unfolding wire_size
deserialise-serialise p buf rest v = (
  payload_bytes p,
  serialise-eq p buf v,
  length-payload_bytes p v,
  deserialise-payload_bytes p rest v,
)

fill_words_fails :
    (n i : ℕ) (bytes words : List ℕ)
    → i ≤ length words
    → length words < i + n
    → fill_words n i bytes words ≡ none
unfolding fill_words
fill_words_fails zero i bytes words lo hi = absurd (omega arith)
fill_words_fails (suc n) i bytes words lo hi =
    let word = from_le_bytes (slice bytes (9 + i * 8) 8) in
    ground (arith, fill_words_fails n (i + 1) bytes (set words i word), length-set words i word)

fill_words_returns :
    (n i : ℕ) (bytes words : List ℕ)
    → i + n ≤ length words
    → (out : List ℕ) × (fill_words n i bytes words ≡ some out)
unfolding fill_words
fill_words_returns zero i bytes words fits = (words, refl)
fill_words_returns (suc n) i bytes words fits =
    let word = from_le_bytes (slice bytes (9 + i * 8) 8) in
    let (out, e) =
      fill_words_returns n (i + 1) bytes (set words i word)
        (omega (arith, length-set words i word)) in
    (out, rw (lt→ltb i (length words) (omega arith)) e)

-- `deserialise` panics on exactly the datagrams that announce more than 16 words and bring the
-- bytes for them: the array is indexed with no check of the count.
pub deserialise_panics :
    (bytes : List ℕ)
    → (deserialise bytes ≡ panicked)
      ↔ ((sack_words < get_or bytes 8 0) × (9 + get_or bytes 8 0 * 8 ≤ length bytes))
unfolding deserialise
deserialise_panics bytes = ground (
  arith,
  fill_words_returns (get_or bytes 8 0) 0 bytes (replicate sack_words 0),
  fill_words_fails (get_or bytes 8 0) 0 bytes (replicate sack_words 0),
)
