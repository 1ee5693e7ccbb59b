-- ===== src/IoEngine/ReadLoop.antt =====
-- The loop that reads a file (crates/ioengine/src/reader.rs).
use udpix.Base.{
  take_more, inl, inr, Bool-cases, ltb, ltb→lt, ltb→ge, ℕ, zero, suc, ◌+◌, ◌-◌, min, ◌≤◌, ◌<◌, ◌≡◌,
  refl, sym, ap, ◌∙◌, subst, List, [], ◌++◌, Option, some, length, take, drop, replicate, arith,
  lt→ltb, ge→ltb, length-take, length-drop, length-append, length-replicate, append_assoc, take_all,
  take-append_left,
}
use udpix.IoEngine.Reader.{read_chunk, finished, running, overwrite, read_loop, read_file}

-- A read inside the file brings at least one byte, at most as many as asked for, and from its place.
abbrev pub Reads : (ℕ → ℕ → ℕ → Option (List ℕ)) → List ℕ → Type 0
Reads reads content =
    (k offset chunk : ℕ)
    → offset < length content
    → 0 < chunk
    → (m : ℕ) × (0 < m)
      × (m ≤ chunk)
      × (m ≤ length content - offset)
      × (reads k offset chunk ≡ some (take m (drop offset content)))

module _ (reads : ℕ → ℕ → ℕ → Option (List ℕ)) (content : List ℕ) (fair : Reads reads content) where
  length-read :
      (offset m : ℕ) → m ≤ length content - offset → length (take m (drop offset content)) ≡ m
  length-read offset m h =
      omega (arith, length-take m (drop offset content), length-drop offset content)

  -- What stands in the buffer after a read.
  overwrite-read :
      (offset m : ℕ) (buf : List ℕ)
      → take offset buf ≡ take offset content
      → length buf ≡ length content
      → offset ≤ length content
      → m ≤ length content - offset
      → (take (offset + m) (overwrite offset (take m (drop offset content)) buf)
          ≡ take (offset + m) content)
        × (length (overwrite offset (take m (drop offset content)) buf) ≡ length content)
  overwrite-read offset m buf same size inside short =
      let bytes = take m (drop offset content) in
      let count = length-read offset m short in
      let rest = drop (offset + length bytes) buf in
      let whole : overwrite offset bytes buf ≡ take (offset + m) content ++ rest =
        ap (λ (t : List ℕ). t ++ (bytes ++ rest)) same
        ∙ sym (append_assoc (take offset content) bytes rest)
        ∙ ap (λ (t : List ℕ). t ++ rest) (take_more offset m content) in
      let front = length-take (offset + m) content in
      (
        ap (λ (t : List ℕ). take (offset + m) t) whole
            ∙ take-append_left (take (offset + m) content) rest (offset + m) (omega (arith, front)),
        ap (λ (t : List ℕ). length t) whole
            ∙ omega (
              arith,
              front,
              count,
              length-append (take (offset + m) content) rest,
              length-drop (offset + length bytes) buf,
            ),
      )

  filled :
      (offset : ℕ) (buf : List ℕ)
      → take offset buf ≡ take offset content
      → length buf ≡ length content
      → length content ≤ offset
      → finished buf ≡ finished content
  filled offset buf same size past =
      ap (λ (t : List ℕ). finished t)
        (sym (take_all buf offset (omega arith)) ∙ same ∙ take_all content offset (omega arith))

  read_loop-ends :
      (n k offset : ℕ) (buf : List ℕ)
      → length content - offset ≤ n
      → take offset buf ≡ take offset content
      → length buf ≡ length content
      → offset ≤ length content
      → read_loop reads n k (length content) offset buf ≡ finished content
  unfolding read_loop
  read_loop-ends zero k offset buf enough same size inside =
      rw (ge→ltb offset (length content) (omega arith)) (filled offset buf same size (omega arith))
  read_loop-ends (suc n) k offset buf enough same size inside =
      elim (Bool-cases (ltb offset (length content))) [
        | inr e ↦ rw e (filled offset buf same size (ltb→ge offset (length content) e))
        | inl e ↦
            let less = ltb→lt offset (length content) e in
            let chunk = min (length content - offset) read_chunk in
            let (m, positive, small, short, got) = fair k offset chunk less (omega arith) in
            let bytes = take m (drop offset content) in
            let buf' = overwrite offset bytes buf in
            let (front, total) = overwrite-read offset m buf same size inside short in
            rw (e, got)
              (subst
                (λ c.
                  read_loop reads n (k + 1) (length content) (offset + c) buf' ≡ finished content)
                (sym (length-read offset m short))
                (read_loop-ends n (k + 1) (offset + m) buf' (omega arith) front total
                  (omega arith)))
      ]

  -- A file that keeps its length is read whole: the loop ends after at most as many reads as it has
  -- bytes, whatever the lengths of the reads are, as long as each read inside the file brings bytes.
  pub read_file_lem :
      (fuel : ℕ) → length content ≤ fuel → read_file reads fuel (length content) ≡ finished content
  unfolding read_file
  read_file_lem fuel enough =
      read_loop-ends fuel 0 0 (replicate (length content) 0) (omega arith) refl
        (length-replicate {A = ℕ} (length content) 0) (omega arith)

  never_ends :
      (n k offset file_len : ℕ) (buf : List ℕ)
      → length content < file_len
      → offset ≤ length content
      → ((j chunk : ℕ) → reads j (length content) chunk ≡ some [])
      → read_loop reads n k file_len offset buf ≡ running
  unfolding read_loop
  never_ends zero k offset file_len buf shrunk inside eof =
      rw (lt→ltb offset file_len (omega arith)) refl
  never_ends (suc n) k offset file_len buf shrunk inside eof =
      let more = lt→ltb offset file_len (omega arith) in
      let chunk = min (file_len - offset) read_chunk in
      elim (Bool-cases (ltb offset (length content))) [
        | inl e ↦
            let (m, positive, small, short, got) =
              fair k offset chunk (ltb→lt offset (length content) e) (omega arith) in
            let bytes = take m (drop offset content) in
            rw (more, got)
              (never_ends n (k + 1) (offset + length bytes) file_len (overwrite offset bytes buf)
                shrunk (omega (arith, length-read offset m short)) eof)
        | inr e ↦
            let at_end : offset ≡ length content =
              omega (arith, ltb→ge offset (length content) e) in
            let got : reads k offset chunk ≡ some [] =
              subst (λ t. reads k t chunk ≡ some []) (sym at_end) (eof k chunk) in
            rw (more, got)
              (never_ends n (k + 1) (offset + 0) file_len (overwrite offset [] buf) shrunk
                (omega arith) eof)
      ]

  -- A file that has become shorter since its length was asked for is never read to its end: however
  -- many rounds are looked at, the loop is still running, since a read at the end brings no byte and
  -- is no error.
  pub read_file-shrunk :
      (fuel file_len : ℕ)
      → length content < file_len
      → ((j chunk : ℕ) → reads j (length content) chunk ≡ some [])
      → read_file reads fuel file_len ≡ running
  unfolding read_file
  read_file-shrunk fuel file_len shrunk eof =
      never_ends fuel 0 0 file_len (replicate file_len 0) shrunk (omega arith) eof
