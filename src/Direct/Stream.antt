-- ===== src/Direct/Stream.antt =====
-- The stream of blocks and its reassembly (crates/cli/src/receive.rs).
use udpix.Base.{
  take-append_within, drop-append_within, ℕ, zero, suc, ◌+◌, ◌-◌, ◌^◌, ◌≤◌, ◌<◌, ◌≡◌, refl, sym, ap,
  ap₂, ◌∙◌, subst, false, ◌⊎◌, List, [], ◌∷◌, ◌++◌, Option, some, ltb, length, take, drop, slice,
  All, length-drop, length-append, take-append_left, drop-append_left, ◌>>=◌, arith, inl, inr,
  Bool-cases, ltb→lt, ltb→ge, lt→ltb, ge→ltb, append-nil, append_assoc,
}
use udpix.Base.Bytes.{
  u64, to_le_bytes, from_le_bytes, length-to_le_bytes, from_le_bytes-to_le_bytes,
}
use udpix.Sender.Chunks.{chunks, concat, concat-chunks}
use udpix.Direct.Framing.{frame, direct_payloads, extract_blocks, reassemble}

abbrev pub frames : List (List ℕ) → List ℕ
frames [] = []
frames (b ∷ bs) = frame b ++ frames bs

-- The length of the block and of its prefix fit 64 bits.
abbrev pub Fits : List ℕ → Type 0
Fits b = length b + 8 < 2 ^ 64

length-frame : (b : List ℕ) → length (frame b) ≡ 8 + length b
unfolding frame
length-frame b =
    omega (
      arith,
      length-append (to_le_bytes 8 (u64 (length b))) b,
      length-to_le_bytes 8 (u64 (length b)),
    )

frame-length : (b rest : List ℕ) → Fits b → from_le_bytes (take 8 (frame b ++ rest)) ≡ length b
unfolding frame
frame-length b rest fits =
    let n = u64 (length b) in
    let same : n ≡ length b = omega arith in
    ap from_le_bytes (take-append_within 8 (frame b) rest (omega (arith, length-frame b)))
    ∙ ap from_le_bytes (take-append_left (to_le_bytes 8 n) b 8 (sym (length-to_le_bytes 8 n)))
    ∙ from_le_bytes-to_le_bytes 8 n (omega arith)
    ∙ same

frame-block : (b rest : List ℕ) → take (length b) (drop 8 (frame b ++ rest)) ≡ b
unfolding frame
frame-block b rest =
    let n = u64 (length b) in
    ap (λ (t : List ℕ). take (length b) t)
      (drop-append_within 8 (frame b) rest (omega (arith, length-frame b)))
    ∙ ap (λ (t : List ℕ). take (length b) (t ++ rest))
        (drop-append_left (to_le_bytes 8 n) b 8 (sym (length-to_le_bytes 8 n)))
    ∙ take-append_left b rest (length b) refl

-- No complete block stands in the accumulator.
abbrev Starved : List ℕ → Type 0
Starved accum = (length accum < 8) ⊎ (length accum < 8 + from_le_bytes (take 8 accum))

-- What the inner loop leaves of a stream that goes on with `rest`.
abbrev Extracted : List (List ℕ) → List ℕ → Option (List (List ℕ) × List ℕ) → Type 0
Extracted bs rest out =
    (done : List (List ℕ)) × (left : List (List ℕ)) × (accum : List ℕ) × (out ≡ some (done, accum))
    × (bs ≡ done ++ left)
    × (accum ++ rest ≡ frames left)
    × (length accum ≡ 0 ⊎ Starved accum)

extract-few :
    (n : ℕ) (accum : List ℕ) → length accum < 8 → extract_blocks (suc n) accum ≡ some ([], accum)
unfolding extract_blocks
extract-few n accum few = rw (lt→ltb _ _ few)

extract-partial :
    (n len : ℕ) (accum : List ℕ)
    → 8 ≤ length accum
    → from_le_bytes (take 8 accum) ≡ len
    → len + 8 < 2 ^ 64
    → length accum < 8 + len
    → extract_blocks (suc n) accum ≡ some ([], accum)
unfolding extract_blocks
extract-partial n len accum head prefix fits short =
    let need : u64 (8 + from_le_bytes (take 8 accum)) ≡ 8 + len = omega arith in
    rw (need, ge→ltb _ _ head, lt→ltb _ _ short)

extract-block :
    (n len : ℕ) (accum : List ℕ)
    → 8 ≤ length accum
    → from_le_bytes (take 8 accum) ≡ len
    → len + 8 < 2 ^ 64
    → 8 + len ≤ length accum
    → extract_blocks (suc n) accum
      ≡ (extract_blocks n (drop (8 + len) accum) >>= λ out. some (slice accum 8 len ∷ out.0, out.1))
unfolding extract_blocks
extract-block n len accum head prefix fits whole =
    let need : u64 (8 + from_le_bytes (take 8 accum)) ≡ 8 + len = omega arith in
    let size : 8 + len - 8 ≡ len = omega arith in
    let wide : ltb (8 + len) 8 ≡ false = ge→ltb _ _ (omega arith) in
    rw (need, ge→ltb _ _ head, ge→ltb _ _ whole, wide, size)

-- A stream that begins with the block `b`, cut behind `accum`.
module _ (b : List ℕ) (bs : List (List ℕ)) (accum rest : List ℕ) (fits : Fits b)
    (stream : accum ++ rest ≡ frame b ++ frames bs) where
  prefix_lem : 8 ≤ length accum → from_le_bytes (take 8 accum) ≡ length b
  prefix_lem head =
      ap from_le_bytes
        (sym (take-append_within 8 accum rest head) ∙ ap (λ (t : List ℕ). take 8 t) stream)
      ∙ frame-length b (frames bs) fits

  block_lem : 8 + length b ≤ length accum → slice accum 8 (length b) ≡ b
  block_lem whole =
      let inside : length b ≤ length (drop 8 accum) = omega (arith, length-drop 8 accum) in
      sym (take-append_within (length b) (drop 8 accum) rest inside)
      ∙ ap (λ (t : List ℕ). take (length b) t)
          (sym (drop-append_within 8 accum rest (omega arith))
            ∙ ap (λ (t : List ℕ). drop 8 t) stream)
      ∙ frame-block b (frames bs)

  left_lem : 8 + length b ≤ length accum → drop (8 + length b) accum ++ rest ≡ frames bs
  left_lem whole =
      sym (drop-append_within (8 + length b) accum rest whole)
      ∙ ap (λ (t : List ℕ). drop (8 + length b) t) stream
      ∙ drop-append_left (frame b) (frames bs) (8 + length b) (sym (length-frame b))

extract-zero : (accum : List ℕ) → extract_blocks 0 accum ≡ some ([], accum)
unfolding extract_blocks
extract-zero accum = refl

extract_lem :
    (n : ℕ) (bs : List (List ℕ)) (accum rest : List ℕ)
    → length accum ≤ n
    → All Fits bs
    → accum ++ rest ≡ frames bs
    → Extracted bs rest (extract_blocks n accum)
extract_lem zero bs accum rest h fit stream =
    ([], bs, accum, extract-zero accum, refl, stream, inl (omega arith))
extract_lem (suc n) [] accum rest h fit stream =
    let total : length (accum ++ rest) ≡ 0 = ap (λ (t : List ℕ). length t) stream in
    let few : length accum < 8 = omega (arith, length-append accum rest) in
    ([], [], accum, extract-few n accum few, refl, stream, inr (inl few))
extract_lem (suc n) (b ∷ bs) accum rest h (fit, fits) stream =
    elim (Bool-cases (ltb (length accum) 8)) [
      | inl less ↦
          let few = ltb→lt _ _ less in
          ([], b ∷ bs, accum, extract-few n accum few, refl, stream, inr (inl few))
      | inr more ↦
          let head = ltb→ge _ _ more in
          let prefix = prefix_lem b bs accum rest fit stream head in
          elim (Bool-cases (ltb (length accum) (8 + length b))) [
            | inl less ↦
                let short = ltb→lt _ _ less in
                (
                  [],
                  b ∷ bs,
                  accum,
                  extract-partial n (length b) accum head prefix fit short,
                  refl,
                  stream,
                  inr (inr (omega arith)),
                )
            | inr enough ↦
                let whole = ltb→ge _ _ enough in
                let accum' = drop (8 + length b) accum in
                let (done, left, accum'', found, split, stream', starved) =
                  extract_lem n bs accum' rest (omega (arith, length-drop (8 + length b) accum))
                    fits (left_lem b bs accum rest fit stream whole) in
                (
                  b ∷ done,
                  left,
                  accum'',
                  extract-block n (length b) accum head prefix fit whole
                      ∙ rw (found, block_lem b bs accum rest fit stream whole) refl,
                  ap (λ (t : List (List ℕ)). b ∷ t) split,
                  stream',
                  starved,
                )
          ]
    ]

All-right : (xs ys : List (List ℕ)) → All Fits (xs ++ ys) → All Fits ys
All-right [] ys h = h
All-right (x ∷ xs) ys (one, h) = All-right xs ys h

Starved-end :
    (left : List (List ℕ)) (accum : List ℕ)
    → All Fits left
    → accum ++ [] ≡ frames left
    → (length accum ≡ 0) ⊎ Starved accum
    → left ≡ []
Starved-end [] accum fit stream starved = refl
Starved-end (b ∷ bs) accum (fit, fits) stream starved =
    let size : length (accum ++ []) ≡ length (frame b) + length (frames bs) =
      ap (λ (t : List ℕ). length t) stream ∙ length-append (frame b) (frames bs) in
    let all : 8 + length b ≤ length accum = omega (arith, length-append accum [], length-frame b) in
    let prefix = prefix_lem b bs accum [] fit stream (omega arith) in
    absurd (elim starved [
      | inl nothing ↦ omega arith
      | inr (inl few) ↦ omega arith
      | inr (inr short) ↦ omega arith
    ])

reassemble_from :
    (cs : List (List ℕ)) (bs : List (List ℕ)) (accum : List ℕ)
    → All Fits bs
    → accum ++ concat cs ≡ frames bs
    → (length accum ≡ 0) ⊎ Starved accum
    → reassemble cs accum ≡ some (bs, [])
unfolding reassemble
reassemble_from [] bs accum fit stream starved =
    let nothing = Starved-end bs accum fit stream starved in
    let dry = sym (append-nil accum) ∙ stream ∙ ap (λ (t : List (List ℕ)). frames t) nothing in
    ap₂ (λ (t : List (List ℕ)) (a : List ℕ). some (t, a)) (sym nothing) dry
reassemble_from (c ∷ cs) bs accum fit stream starved =
    let joined : (accum ++ c) ++ concat cs ≡ frames bs =
      append_assoc accum c (concat cs) ∙ stream in
    let (done, left, accum', found, split, stream', starved') =
      extract_lem (length (accum ++ c)) bs (accum ++ c) (concat cs) (omega arith) fit joined in
    let fit' : All Fits left = All-right done left (subst (λ t. All Fits t) split fit) in
    let rest = reassemble_from cs left accum' fit' stream' starved' in
    rw (found, rest) (ap (λ (t : List (List ℕ)). some (t, [])) (sym split))

-- However the stream of framed blocks is cut into payloads, the reassembly does not panic and
-- gives the blocks back in order, with nothing left over. It holds where the length of each block
-- and its prefix fit 64 bits.
pub reassemble_lem :
    (blocks payloads : List (List ℕ))
    → All Fits blocks
    → concat payloads ≡ frames blocks
    → reassemble payloads [] ≡ some (blocks, [])
reassemble_lem blocks payloads fit stream = reassemble_from payloads blocks [] fit stream (inl refl)

concat-append : (xs ys : List (List ℕ)) → concat (xs ++ ys) ≡ concat xs ++ concat ys
concat-append [] ys = refl
concat-append (x ∷ xs) ys =
    ap (λ (t : List ℕ). x ++ t) (concat-append xs ys) ∙ sym (append_assoc x (concat xs) (concat ys))

concat-direct_payloads : (blocks : List (List ℕ)) → concat (direct_payloads blocks) ≡ frames blocks
unfolding direct_payloads
concat-direct_payloads [] = refl
concat-direct_payloads (b ∷ bs) =
    concat-append (chunks (frame b)) (direct_payloads bs)
    ∙ ap₂ (λ (x y : List ℕ). x ++ y) (concat-chunks (frame b)) (concat-direct_payloads bs)

-- In particular what the direct sender cuts is put together again.
pub reassemble-direct_payloads :
    (blocks : List (List ℕ))
    → All Fits blocks
    → reassemble (direct_payloads blocks) [] ≡ some (blocks, [])
reassemble-direct_payloads blocks fit =
    reassemble_lem blocks (direct_payloads blocks) fit (concat-direct_payloads blocks)
