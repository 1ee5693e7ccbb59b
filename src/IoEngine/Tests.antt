-- ===== src/IoEngine/Tests.antt =====
-- The theorems on the storage engine at concrete inputs.
use udpix.Base.{
  true, ◌-◌, ◌≤◌, ◌<◌, min, Option, length, take, drop, ap, ℕ, ◌≡◌, refl, List, [], ◌∷◌, some,
  arith,
}
use udpix.IoEngine.Writer.{write_file}
use udpix.IoEngine.Reader.{finished, running, read_file}
use udpix.IoEngine.ReadLoop.{Reads, read_file_lem, read_file-shrunk}
use udpix.IoEngine.WriteLoop.{Writes, write_file_lem}
use udpix.IoEngine.ZeroCopy.{Splice, Splicing, splice_copy}
use udpix.IoEngine.Spliced.{Moves, splice_copy_lem}
use udpix.IoEngine.Submission.{
  Pipeline, start_pipeline, submit, Run, start, then_step, submission_stuck,
}

abbrev digits : List ℕ
digits = 0 ∷ 1 ∷ 2 ∷ 3 ∷ 4 ∷ 5 ∷ 6 ∷ 7 ∷ 8 ∷ 9 ∷ 10 ∷ 11 ∷ []

-- Ten bytes at a time, and nothing at the end of the file.
abbrev ten_at_once : ℕ → ℕ → ℕ → Option (List ℕ)
ten_at_once k offset chunk = some (take (min (min chunk 10) (12 - offset)) (drop offset digits))

ten_at_once-Reads : Reads ten_at_once digits
ten_at_once-Reads k offset chunk inside positive =
    (min (min chunk 10) (12 - offset), omega arith, omega arith, omega arith, refl)

read_file_lem_example : read_file ten_at_once 12 12 ≡ finished digits
read_file_lem_example = read_file_lem ten_at_once digits ten_at_once-Reads 12 (omega arith)

read_file-shrunk_example : read_file ten_at_once 100 20 ≡ running
read_file-shrunk_example =
    read_file-shrunk ten_at_once digits ten_at_once-Reads 100 20 (omega arith) nothing_left
  where
    nothing_left : (j chunk : ℕ) → ten_at_once j 12 chunk ≡ some []
    nothing_left j chunk =
        let empty : min (min chunk 10) (12 - 12) ≡ 0 = omega arith in
        ap (λ (m : ℕ). some (take m (drop 12 digits))) empty

abbrev five_at_once : ℕ → ℕ → List ℕ → Option ℕ
five_at_once k offset buf = some (min 5 (length buf))

five_at_once-Writes : Writes five_at_once
five_at_once-Writes k offset buf positive = (min 5 (length buf), omega arith, omega arith, refl)

write_file_lem_example : write_file five_at_once 12 digits ≡ finished digits
write_file_lem_example = write_file_lem five_at_once five_at_once-Writes digits 12 (omega arith)

abbrev one_submitted : Pipeline
one_submitted = record { submitted = 1; requests = 1; in_hand = 0; results = 0; taken = 0 }

one_submitted-Run : (n : ℕ) → 0 < n → Run n one_submitted
unfolding start_pipeline
one_submitted-Run n some_files =
    then_step start_pipeline one_submitted start (submit start_pipeline some_files (omega arith))

submission_stuck_example : (one_submitted.submitted ≤ 1025) × (one_submitted.taken ≡ 0)
submission_stuck_example =
    submission_stuck 1026 one_submitted (omega arith) (one_submitted-Run 1026 (omega arith))

abbrev byte_by_byte : Splice
byte_by_byte = record {
  pipe_opens = true;
  into_pipe = λ k there wanted. min there wanted;
  out_of_pipe = λ k there. 1;
}

byte_by_byte-Moves : Moves byte_by_byte
byte_by_byte-Moves = record {
  opens = refl;
  moves_in = λ k there wanted some_there some_wanted. (omega arith, omega arith, omega arith);
  nothing_left = λ k wanted. omega arith;
  moves_out = λ k there some_there. (omega arith, omega arith);
}

splice_copy_lem_example :
    (t : Splicing) × (splice_copy byte_by_byte digits 20 ≡ some t)
    × (t.target ≡ digits)
    × (t.total ≡ 12)
splice_copy_lem_example = splice_copy_lem byte_by_byte byte_by_byte-Moves digits 20
