-- ===== src/IoEngine/WriteLoop.antt =====
-- The loop that writes a file (crates/ioengine/src/writer.rs).
use udpix.Base.{
  take_more, take-take, ap₂, ℕ, zero, suc, ◌+◌, ◌-◌, min, ◌≤◌, ◌<◌, ◌≡◌, refl, ap, ◌∙◌, inl, inr,
  List, [], ◌∷◌, ◌++◌, Option, some, ltb, length, take, drop, slice, arith, Bool-cases, ltb→lt,
  ltb→ge, ge→ltb, length-take, length-drop, append-nil, take_all,
}
use udpix.IoEngine.Reader.{finished, overwrite}
use udpix.IoEngine.Writer.{write_chunk, write_loop, write_file}

-- A write of some bytes writes at least one of them.
abbrev pub Writes : (ℕ → ℕ → List ℕ → Option ℕ) → Type 0
Writes writes =
    (k offset : ℕ) (buf : List ℕ)
    → 0 < length buf
    → (n : ℕ) × (0 < n) × (n ≤ length buf) × (writes k offset buf ≡ some n)

module _ (writes : ℕ → ℕ → List ℕ → Option ℕ) (fair : Writes writes) (bytes : List ℕ) where
  -- What stands in the file after a write.
  overwrite-write :
      (offset n chunk : ℕ)
      → offset + n ≤ length bytes
      → n ≤ chunk
      → overwrite offset (take n (slice bytes offset chunk)) (take offset bytes)
        ≡ take (offset + n) bytes
  overwrite-write offset n chunk inside short =
      let buf = take n (slice bytes offset chunk) in
      let file = take offset bytes in
      let front : take offset file ≡ file =
        take_all file offset (omega (arith, length-take offset bytes)) in
      let past : drop (offset + length buf) file ≡ [] =
        drop_past (offset + length buf) file (omega (arith, length-take offset bytes)) in
      ap₂ (λ (xs ys : List ℕ). xs ++ (buf ++ ys)) front past
      ∙ ap (λ (t : List ℕ). file ++ t)
          (append-nil buf ∙ take-take n chunk (drop offset bytes) short)
      ∙ take_more offset n bytes
    where
      drop_past : (k : ℕ) (xs : List ℕ) → length xs ≤ k → drop k xs ≡ []
      drop_past zero [] h = refl
      drop_past zero (x ∷ xs) h = absurd (omega arith)
      drop_past (suc k) [] h = refl
      drop_past (suc k) (x ∷ xs) h = drop_past k xs (omega arith)

  write_loop-ends :
      (fuel k offset : ℕ)
      → length bytes - offset ≤ fuel
      → offset ≤ length bytes
      → write_loop writes fuel k bytes offset (take offset bytes) ≡ finished bytes
  unfolding write_loop
  write_loop-ends zero k offset enough inside =
      rw (ge→ltb offset (length bytes) (omega arith))
        (ap (λ (t : List ℕ). finished t) (take_all bytes offset (omega arith)))
  write_loop-ends (suc fuel) k offset enough inside =
      elim (Bool-cases (ltb offset (length bytes))) [
        | inr e ↦ rw e (
            ap (λ (t : List ℕ). finished t)
              (take_all bytes offset (ltb→ge offset (length bytes) e)))
        | inl e ↦
            let less = ltb→lt offset (length bytes) e in
            let chunk = min (length bytes - offset) write_chunk in
            let buf = slice bytes offset chunk in
            let size : length buf ≡ chunk =
              omega (arith, length-take chunk (drop offset bytes), length-drop offset bytes) in
            let (n, positive, small, got) = fair k offset buf (omega (arith, size)) in
            rw (e, got, overwrite-write offset n chunk (omega (arith, size)) (omega (arith, size)))
              (write_loop-ends fuel (k + 1) (offset + n) (omega arith) (omega (arith, size)))
      ]

  -- Whatever part of each chunk the kernel writes, as long as it is not nothing: the loop ends after
  -- at most as many writes as there are bytes, and then the file holds exactly the bytes.
  pub write_file_lem :
      (fuel : ℕ) → length bytes ≤ fuel → write_file writes fuel bytes ≡ finished bytes
  unfolding write_file
  write_file_lem fuel enough = write_loop-ends fuel 0 0 (omega arith) (omega arith)
