-- ===== src/Sack/Payload.antt =====
-- `SackPayload` of crates/protocol/src/sack.rs. The array of 16 words is a list; 64-bit
-- arithmetic is written with its wrap-around.
use udpix.Base.{
  ℕ, zero, suc, ◌+◌, ◌-◌, ◌*◌, ◌/◌, ◌%◌, ◌^◌, ◌≤◌, ◌<◌, ◌≡◌, bit_and, bit_or, Bool, true, false,
  Option, none, some, List, [], ◌∷◌, ◌++◌, ltb, leb, ◌==◌, if◌then◌else◌, length, get_or, set, take,
  drop, slice, replicate, All,
}
use udpix.Base.Bytes.{u8, u64, to_le_bytes, from_le_bytes}
use mathlib.Core.Option

-- `SACK_WORDS` and `SACK_WINDOW`.
abbrev pub sack_words : ℕ
sack_words = 16

abbrev pub sack_window : ℕ
sack_window = 1024

pub record SackPayload : Type 0 where
  pub base_seq : ℕ
  pub word_count : ℕ
  pub words : List ℕ

-- `SackPayload::default()` with the base set.
unfoldable pub starting_at : ℕ → SackPayload
starting_at base = record { base_seq = base; word_count = 0; words = replicate sack_words 0 }

-- What the type and the operations keep: 16 words of 64 bits, and none but zeros behind
-- `word_count`.
pub record IsPayload (p : SackPayload) : Type 0 where
  pub base_fits : p.base_seq < 2 ^ 64
  pub count_fits : p.word_count ≤ sack_words
  pub sixteen : length p.words ≡ sack_words
  pub words_fit : All (λ w. w < 2 ^ 64) p.words
  pub zero_behind : (i : ℕ) → p.word_count ≤ i → get_or p.words i 0 ≡ 0

unfoldable pub wire_size : SackPayload → ℕ
wire_size p = 8 + 1 + p.word_count * 8

unfoldable pub mark_received : SackPayload → ℕ → SackPayload
mark_received p seq =
    let offset = seq - p.base_seq in
    let word_idx = offset / 64 in
    let bit_idx = offset % 64 in
    if ltb seq p.base_seq then p else if leb sack_window offset then p else record p {
      words = set p.words word_idx (bit_or (get_or p.words word_idx 0) (u64 (2 ^ bit_idx)));
      word_count = if ltb p.word_count (word_idx + 1) then u8 (word_idx + 1) else p.word_count;
    }

-- `(words[offset / 64] >> (offset % 64)) & 1 == 1`.
unfoldable pub has_bit : List ℕ → ℕ → Bool
has_bit words offset = bit_and (get_or words (offset / 64) 0 / 2 ^ (offset % 64)) 1 == 1

unfoldable pub is_received : SackPayload → ℕ → Bool
is_received p seq =
    let offset = seq - p.base_seq in
    if ltb seq p.base_seq
    then true
    else if leb sack_window offset
    then false
    else has_bit p.words offset

-- `words.copy_within(k..SACK_WORDS, 0)`, then zeros in the last `k` words.
unfoldable pub shift_words : ℕ → List ℕ → List ℕ
shift_words k ws =
    let moved = drop k ws ++ drop (length ws - k) ws in take (length ws - k) moved ++ replicate k 0

-- The loop over the words from the last to the first, with the carry that it hands on.
unfoldable pub shift_bits : ℕ → List ℕ → List ℕ × ℕ
shift_bits b [] = ([], 0)
shift_bits b (w ∷ ws) =
    let (shifted, carry) = shift_bits b ws in
    (bit_or (w / 2 ^ b) carry ∷ shifted, u64 (w * 2 ^ (64 - b)))

-- `while word_count > 0 && words[word_count - 1] == 0`.
unfoldable pub trim_count : ℕ → List ℕ → ℕ
trim_count zero ws = 0
trim_count (suc n) ws = if get_or ws n 0 == 0 then trim_count n ws else suc n

unfoldable pub shift_window : ℕ → List ℕ → List ℕ
unfolding shift_words shift_bits
shift_window shift ws =
    let word_shift = shift / 64 in
    let bit_shift = shift % 64 in
    let moved = if ltb 0 word_shift then shift_words word_shift ws else ws in
    if ltb 0 bit_shift then (shift_bits bit_shift moved).0 else moved

unfoldable pub advance_base : SackPayload → ℕ → SackPayload
advance_base p new_base =
    let shift = new_base - p.base_seq in
    let shifted = shift_window shift p.words in
    if leb new_base p.base_seq
    then p
    else if leb sack_window shift
    then record { base_seq = new_base; word_count = 0; words = replicate sack_words 0 }
    else record { base_seq = new_base; word_count = trim_count sack_words shifted; words = shifted }

-- The iteration over the offsets from `offset` on, `n` of them.
unfoldable pub missing_from : SackPayload → ℕ → ℕ → List ℕ
missing_from p zero offset = []
missing_from p (suc n) offset =
    let rest = missing_from p n (offset + 1) in
    if has_bit p.words offset then rest else u64 (p.base_seq + offset) ∷ rest

unfoldable pub missing_seqs : SackPayload → List ℕ
missing_seqs p = missing_from p sack_window 0

-- The first `n` words; `none` is the panic of an index past the array.
unfoldable pub serialise_words : ℕ → List ℕ → Option (List ℕ)
serialise_words zero ws = some []
serialise_words (suc n) [] = none
serialise_words (suc n) (w ∷ ws) =
    Option.map (λ bytes. to_le_bytes 8 w ++ bytes) (serialise_words n ws)

unfoldable pub serialise : SackPayload → List ℕ → Option (List ℕ)
serialise p buf =
    Option.map (λ bytes. buf ++ (to_le_bytes 8 p.base_seq ++ (p.word_count ∷ bytes)))
      (serialise_words p.word_count p.words)

-- `Option<(Self, usize)>`, with the panic of an index past the array apart.
pub data Parsed : Type 0 where
  parsed : SackPayload → ℕ → Parsed
  too_short : Parsed
  panicked : Parsed

-- The loop at index `i`, with `n` rounds left.
unfoldable pub fill_words : ℕ → ℕ → List ℕ → List ℕ → Option (List ℕ)
fill_words zero i bytes words = some words
fill_words (suc n) i bytes words =
    let rest =
      fill_words n (i + 1) bytes (set words i (from_le_bytes (slice bytes (9 + i * 8) 8))) in
    if ltb i (length words) then rest else none

unfoldable pub deserialise : List ℕ → Parsed
deserialise bytes =
    let word_count = get_or bytes 8 0 in
    let needed = 9 + word_count * 8 in
    if ltb (length bytes) 9
    then too_short
    else if ltb (length bytes) needed
    then too_short
    else elim (fill_words word_count 0 bytes (replicate sack_words 0)) [
      | none ↦ panicked
      | some words ↦
          parsed
            (record {
              base_seq = from_le_bytes (slice bytes 0 8);
              word_count = word_count;
              words = words;
            })
            needed
    ]
