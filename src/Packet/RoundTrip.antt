-- ===== src/Packet/RoundTrip.antt =====
-- `write_to` against `read_from` (crates/protocol/src/packet.rs).
use udpix.Base.{
  replicate, leb, true, length-replicate, ℕ, zero, suc, ◌≤◌, ◌<◌, ◌≡◌, refl, ◌∙◌, ap, none, some,
  List, [], ◌∷◌, ◌++◌, length, drop, All, arith, ◌↔◌,
}
use udpix.Base.{
  length-append, length-drop, drop-append_left, slice, get_or, length-slice, slice-append-drop,
  All-take, All-drop, ap₂, ge→ltb, ◌^◌, ◌%◌, ◌+◌,
}
use udpix.Base.Bytes.{
  IsByte, from_le_bytes-to_le_bytes, from_le_bytes, to_le_bytes, to_le_bytes-from_le_bytes,
}
use udpix.Packet.{RudpHeader, IsHeader, header_bytes, header_size, write_to, read_from}

-- Parsing sees the header that stands in front, whatever follows it.
pub read_from-header_bytes :
    (h : RudpHeader) (rest : List ℕ) → IsHeader h → read_from (header_bytes h ++ rest) ≡ some h
unfolding read_from header_bytes
read_from-header_bytes h rest v =
    rw (ge→ltb (length (header_bytes h ++ rest)) header_size (omega arith)) (ap some same)
  where
    open v use {
      session_id_fits, sequence_number_fits, timestamp_us_fits, flags_fits, payload_len_fits,
      fec_group_id_fits, fec_index_fits, fec_group_size_fits,
    }

    read_back : (k n : ℕ) → n < 256 ^ k → from_le_bytes (to_le_bytes k n) ≡ n
    read_back = from_le_bytes-to_le_bytes

    flags_back : h.flags % 256 ≡ h.flags
    flags_back = omega arith

    index_back : h.fec_index % 256 ≡ h.fec_index
    index_back = omega arith

    size_back : h.fec_group_size % 256 ≡ h.fec_group_size
    size_back = omega arith

    same :
        ◌≡◌ {A = RudpHeader}
          (record {
            session_id = from_le_bytes (to_le_bytes 4 h.session_id);
            sequence_number = from_le_bytes (to_le_bytes 8 h.sequence_number);
            timestamp_us = from_le_bytes (to_le_bytes 8 h.timestamp_us);
            flags = h.flags % 256;
            payload_len = from_le_bytes (to_le_bytes 2 h.payload_len);
            fec_group_id = from_le_bytes (to_le_bytes 4 h.fec_group_id);
            fec_index = h.fec_index % 256;
            fec_group_size = h.fec_group_size % 256;
          })
          h
    same = λ i. record {
      session_id = read_back 4 h.session_id session_id_fits i;
      sequence_number = read_back 8 h.sequence_number sequence_number_fits i;
      timestamp_us = read_back 8 h.timestamp_us timestamp_us_fits i;
      flags = flags_back i;
      payload_len = read_back 2 h.payload_len payload_len_fits i;
      fec_group_id = read_back 4 h.fec_group_id fec_group_id_fits i;
      fec_index = index_back i;
      fec_group_size = size_back i;
    }

pub length-header_bytes : (h : RudpHeader) → length (header_bytes h) ≡ header_size
unfolding header_bytes
length-header_bytes h = refl

-- A header written into any buffer that holds it is read back, and nothing behind it changes.
pub read_from-write_to :
    (h : RudpHeader) (buf : List ℕ)
    → IsHeader h
    → header_size ≤ length buf
    → (out : List ℕ) × (write_to h buf ≡ some out)
      × (read_from out ≡ some h)
      × (length out ≡ length buf)
      × (drop header_size out ≡ drop header_size buf)
unfolding write_to
read_from-write_to h buf v fits = (
  header_bytes h ++ drop header_size buf,
  ground arith,
  read_from-header_bytes h (drop header_size buf) v,
  omega (
    arith,
    length-append (header_bytes h) (drop header_size buf),
    length-header_bytes h,
    length-drop header_size buf,
  ),
  drop-append_left (header_bytes h) (drop header_size buf) header_size (length-header_bytes h),
)

-- Parsing fails exactly on a datagram shorter than a header, and writing exactly into one.
pub short_buffer :
    (h : RudpHeader) (buf : List ℕ)
    → ((read_from buf ≡ none) ↔ (length buf < header_size))
      × ((write_to h buf ≡ none) ↔ (length buf < header_size))
unfolding read_from write_to
short_buffer h buf = ground arith

-- Writing back what was read from a slice.
slice_back :
    (buf : List ℕ) (start n : ℕ)
    → All IsByte buf
    → start + n ≤ length buf
    → to_le_bytes n (from_le_bytes (slice buf start n)) ≡ slice buf start n
slice_back buf start n bytes fits = rw (length-slice buf start n fits) at (
    to_le_bytes-from_le_bytes (slice buf start n)
      (All-take IsByte n (drop start buf) (All-drop IsByte start buf bytes)))

slice_one :
    (buf : List ℕ) (i : ℕ)
    → All IsByte buf
    → i < length buf
    → to_le_bytes 1 (get_or buf i 0) ≡ slice buf i 1
slice_one [] i bytes h = absurd (omega arith)
slice_one (b ∷ bs) zero bytes h =
    let e : b % 256 ≡ b = omega (arith, bytes.0) in ap (λ (x : ℕ). x ∷ []) e
slice_one (b ∷ bs) (suc i) bytes h = slice_one bs i bytes.1 (omega arith)

abbrev parsed : List ℕ → RudpHeader
parsed buf = record {
  session_id = from_le_bytes (slice buf 0 4);
  sequence_number = from_le_bytes (slice buf 4 8);
  timestamp_us = from_le_bytes (slice buf 12 8);
  flags = get_or buf 20 0;
  payload_len = from_le_bytes (slice buf 21 2);
  fec_group_id = from_le_bytes (slice buf 23 4);
  fec_index = get_or buf 27 0;
  fec_group_size = get_or buf 28 0;
}

-- The field at `start`, `n` bytes wide, and the bytes behind it.
field_back :
    (buf field : List ℕ) (start n : ℕ) {rest : List ℕ}
    → field ≡ slice buf start n
    → rest ≡ drop (start + n) buf
    → field ++ rest ≡ drop start buf
field_back buf field start n e f = ap₂ ◌++◌ e f ∙ slice-append-drop buf start n

header_bytes-parsed :
    (buf : List ℕ)
    → All IsByte buf
    → header_size ≤ length buf
    → header_bytes (parsed buf) ++ drop header_size buf ≡ buf
unfolding header_bytes
header_bytes-parsed buf bytes fits = wide 0 4 (omega arith) (
    wide 4 8 (omega arith) (
      wide 12 8 (omega arith) (
        one 20 (omega arith) (
          wide 21 2 (omega arith)
            (wide 23 4 (omega arith) (one 27 (omega arith) (one 28 (omega arith) refl)))))))
  where
    wide :
        (start n : ℕ) {rest : List ℕ}
        → start + n ≤ length buf
        → rest ≡ drop (start + n) buf
        → to_le_bytes n (from_le_bytes (slice buf start n)) ++ rest ≡ drop start buf
    wide start n h e = field_back buf _ start n (slice_back buf start n bytes h) e

    one :
        (i : ℕ) {rest : List ℕ}
        → i < length buf
        → rest ≡ drop (i + 1) buf
        → to_le_bytes 1 (get_or buf i 0) ++ rest ≡ drop i buf
    one i h e = field_back buf _ i 1 (slice_one buf i bytes h) e

-- Every datagram long enough is parsed, and the header written back over it changes no byte: no
-- two datagrams that differ in the first 29 bytes are parsed alike.
pub write_to-read_from :
    (buf : List ℕ)
    → All IsByte buf
    → header_size ≤ length buf
    → (h : RudpHeader) × (read_from buf ≡ some h) × (write_to h buf ≡ some buf)
unfolding read_from write_to
write_to-read_from buf bytes fits =
    (parsed buf, ground arith, ground (arith, header_bytes-parsed buf bytes fits))

-- Written into a buffer of zeros that is longer by `n`.
pub write_to_blank :
    (h : RudpHeader) (n : ℕ)
    → write_to h (replicate (header_size + n) 0)
      ≡ some (header_bytes h ++ drop header_size (replicate (header_size + n) 0))
unfolding write_to
write_to_blank h n =
    let room : leb header_size (length (replicate {A = ℕ} (header_size + n) 0)) ≡ true =
      ground (arith, length-replicate {A = ℕ} (header_size + n) 0) in
    rw room
