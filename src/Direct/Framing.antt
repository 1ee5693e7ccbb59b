-- ===== src/Direct/Framing.antt =====
-- The framing of blocks: the send task of `run_direct` in crates/cli/src/send.rs, and the reassembly
-- task of `run_direct` in crates/cli/src/receive.rs. `none` is a panic.
use udpix.Base.{
  ℕ, zero, suc, ◌+◌, ◌-◌, List, [], ◌∷◌, ◌++◌, Option, none, some, ltb, if◌then◌else◌, length, take,
  drop, slice, ◌>>=◌,
}
use udpix.Base.Bytes.{u64, to_le_bytes, from_le_bytes}
use udpix.Sender.Chunks.{chunks}

-- The block behind its length in eight bytes.
unfoldable pub frame : List ℕ → List ℕ
frame block = to_le_bytes 8 (u64 (length block)) ++ block

-- The payloads of the datagrams that carry the blocks.
unfoldable pub direct_payloads : List (List ℕ) → List (List ℕ)
direct_payloads [] = []
direct_payloads (block ∷ blocks) = chunks (frame block) ++ direct_payloads blocks

-- The inner loop: the complete blocks of the accumulator, and what is left of it. The fuel is the
-- length of the accumulator: each round takes at least the eight bytes of a length.
unfoldable pub extract_blocks : ℕ → List ℕ → Option (List (List ℕ) × List ℕ)
extract_blocks zero accum = some ([], accum)
extract_blocks (suc n) accum =
    let need = u64 (8 + from_le_bytes (take 8 accum)) in
    let rest = extract_blocks n (drop need accum) in
    if ltb (length accum) 8
    then some ([], accum)
    else if ltb (length accum) need
    then some ([], accum)
    else if ltb need 8
    then none
    else (rest >>= λ out. some (slice accum 8 (need - 8) ∷ out.0, out.1))

-- The outer loop over the payloads that the receiver delivers.
unfoldable pub reassemble : List (List ℕ) → List ℕ → Option (List (List ℕ) × List ℕ)
reassemble [] accum = some ([], accum)
reassemble (chunk ∷ more) accum =
    extract_blocks (length (accum ++ chunk)) (accum ++ chunk) >>= λ out.
    reassemble more out.1 >>= λ rest. some (out.0 ++ rest.0, rest.1)
