-- ===== src/IoEngine/Reassembly.antt =====
-- The parts of split files in the writer (crates/ioengine/src/writer.rs).
use udpix.Base.{
  ℕ, ◌+◌, ◌^◌, ◌<◌, ◌≡◌, refl, sym, ap, ◌∙◌, subst, true, false, List, [], ◌∷◌, ◌++◌, Option, none,
  some, ◌==◌, length, arith, eq→==, ne→==, append_assoc, ◌>>=◌, length-append,
}
use udpix.Base.Bytes.{u32, u64}
use udpix.Control.Table.{find, put, erase, same_text_refl}
use udpix.Packer.Pieces.{Piece, parts_from}
use udpix.Sender.Chunks.{concat}
use udpix.IoEngine.Writer.{
  WriteRequest, PartialFile, WriterThread, Writing, is_complete, assemble, or_new_file,
  submit_write, keep_part, accept_part, on_part,
}
use udpix.IoEngine.Parts.{
  numbered, length-numbered, insert_part-numbered, assemble_from-numbered, IsHealthy, Stands,
  request, submit-Stands, then-Stands, reaped,
}

module _ (thread : WriterThread) (output_dir : List ℕ) (good : IsHealthy thread) where
  -- The table while a split file is under way: nothing before its first part.
  abbrev pub under_way : List ℕ → ℕ → List (List ℕ) → List (List ℕ × PartialFile)
  under_way path n [] = []
  under_way path n (b ∷ bs) =
      (path, record { total_parts = n; received = numbered 0 (b ∷ bs) }) ∷ []

  find-under_way :
      (path : List ℕ) (n : ℕ) (bs : List (List ℕ))
      → or_new_file n (find path (under_way path n bs))
        ≡ record { total_parts = n; received = numbered 0 bs }
  unfolding find
  find-under_way path n [] = refl
  find-under_way path n (b ∷ bs) = rw (same_text_refl path) refl

  put-under_way :
      (path : List ℕ) (n : ℕ) (bs : List (List ℕ)) (pf : PartialFile)
      → put path pf (under_way path n bs) ≡ (path, pf) ∷ []
  unfolding put
  put-under_way path n [] pf = refl
  put-under_way path n (b ∷ bs) pf = rw (same_text_refl path) refl

  erase-under_way :
      (path : List ℕ) (n : ℕ) (bs : List (List ℕ)) → erase path (under_way path n bs) ≡ []
  unfolding erase
  erase-under_way path n [] = refl
  erase-under_way path n (b ∷ bs) = rw (same_text_refl path) refl

  file_of : ℕ → List (List ℕ) → PartialFile
  file_of n bs = record { total_parts = n; received = numbered 0 bs }

  under_way-append :
      (path b : List ℕ) (n : ℕ) (bs : List (List ℕ))
      → under_way path n (bs ++ (b ∷ [])) ≡ (path, file_of n (bs ++ (b ∷ []))) ∷ []
  unfolding file_of
  under_way-append path b n [] = refl
  under_way-append path b n (c ∷ bs) = refl

  length-snoc : (bs : List (List ℕ)) (b : List ℕ) → length (bs ++ (b ∷ [])) ≡ length bs + 1
  length-snoc bs b = omega (arith, length-append bs (b ∷ []))

  -- Any part of a split file: it stands behind the others.
  kept :
      (path b : List ℕ) (n : ℕ) (bs : List (List ℕ)) (w : Writing)
      → 1 < n
      → w.partial ≡ under_way path n bs
      → accept_part thread output_dir path (length bs) n b w
        ≡ keep_part thread output_dir path (file_of n (bs ++ (b ∷ []))) w
  unfolding accept_part file_of
  kept path b n bs w many h =
      let split : (n == 1) ≡ false = ne→== n 1 (λ e. omega arith) in
      let found : or_new_file n (find path w.partial) ≡ file_of n bs =
        ap (λ (t : List (List ℕ × PartialFile)). or_new_file n (find path t)) h
        ∙ find-under_way path n bs in
      rw (split, found, insert_part-numbered 0 (length bs) bs b (omega arith)) refl

  -- A part that is not the last.
  middle-Stands :
      (path b : List ℕ) (n : ℕ) (bs : List (List ℕ)) (w : Writing) (reqs : List WriteRequest)
      (total : ℕ)
      → length bs + 1 < n
      → Stands thread output_dir good reqs total (under_way path n bs) (some w)
      → Stands thread output_dir good reqs total
          (under_way path n (bs ++ (b ∷ [])))
          (on_part thread output_dir path (length bs) n b w)
  unfolding on_part keep_part is_complete file_of
  middle-Stands path b n bs w reqs total more (r, t, p) =
      let all = bs ++ (b ∷ []) in
      let pf = file_of n all in
      let open_still : (length (numbered 0 all) == n) ≡ false =
        ne→== _ _ (λ e. omega (arith, e, length-numbered 0 all, length-snoc bs b)) in
      let step : accept_part thread output_dir path (length bs) n b w
          ≡ some (record w { partial = put path pf w.partial }) =
        kept path b n bs w (omega arith) p ∙ rw open_still refl in
      let table : put path pf w.partial ≡ under_way path n all =
        ap (put path pf) p ∙ put-under_way path n bs pf ∙ sym (under_way-append path b n bs) in
      reaped thread output_dir good (accept_part thread output_dir path (length bs) n b w) reqs
        total (under_way path n all)
        (subst (Stands thread output_dir good reqs total (under_way path n all)) (sym step)
          (r, t, table))

  -- The last part.
  last-Stands :
      (path b : List ℕ) (n : ℕ) (bs : List (List ℕ)) (w : Writing) (reqs : List WriteRequest)
      (total : ℕ)
      → length bs + 1 ≡ n
      → 1 < n
      → Stands thread output_dir good reqs total (under_way path n bs) (some w)
      → Stands thread output_dir good
          (reqs ++ (request thread output_dir good path (concat (bs ++ (b ∷ []))) ∷ []))
          (u64 (total + length (concat (bs ++ (b ∷ [])))))
          []
          (on_part thread output_dir path (length bs) n b w)
  unfolding on_part keep_part is_complete assemble file_of
  last-Stands path b n bs w reqs total last many (r, t, p) =
      let all = bs ++ (b ∷ []) in
      let count : length all ≡ n = omega (arith, length-snoc bs b) in
      let closed : (length (numbered 0 all) == n) ≡ true =
        eq→== _ _ (omega (arith, count, length-numbered 0 all)) in
      let w' : Writing = record w { partial = erase path w.partial } in
      let step : accept_part thread output_dir path (length bs) n b w
          ≡ submit_write thread output_dir path (concat all) w' =
        kept path b n bs w many p ∙ rw (closed, assemble_from-numbered n 0 all count) refl in
      let table : erase path w.partial ≡ [] = ap (erase path) p ∙ erase-under_way path n bs in
      reaped thread output_dir good (accept_part thread output_dir path (length bs) n b w) _ _ [] (
        subst (Stands thread output_dir good _ _ []) (sym step)
          (submit-Stands thread output_dir good path (concat all) w' reqs total [] (r, t, table)))

  unfoldable pub on_parts : List Piece → Writing → Option Writing
  on_parts [] w = some w
  on_parts (p ∷ ps) w =
      on_part thread output_dir p.path p.part_index p.total_parts p.bytes w >>= λ w'. on_parts ps w'

  pub on_parts-append :
      (ps qs : List Piece) (w : Writing)
      → on_parts (ps ++ qs) w ≡ (on_parts ps w >>= λ w'. on_parts qs w')
  unfolding on_parts
  on_parts-append [] qs w = refl
  on_parts-append (p ∷ ps) qs w =
      go (on_part thread output_dir p.path p.part_index p.total_parts p.bytes w)
        (λ w'. on_parts-append ps qs w')
    where
      go :
          (o : Option Writing)
          → ((w' : Writing) → on_parts (ps ++ qs) w' ≡ (on_parts ps w' >>= λ u. on_parts qs u))
          → (o >>= λ w'. on_parts (ps ++ qs) w')
            ≡ ((o >>= λ w'. on_parts ps w') >>= λ u. on_parts qs u)
      go none ih = refl
      go (some w') ih = ih w'

  -- The rest of a split file.
  pub rest-Stands :
      (path : List ℕ) (n : ℕ) (cs bs : List (List ℕ)) (w : Writing) (reqs : List WriteRequest)
      (total : ℕ)
      → length bs + length cs ≡ n
      → 1 < n
      → n < 2 ^ 32
      → 0 < length cs
      → Stands thread output_dir good reqs total (under_way path n bs) (some w)
      → Stands thread output_dir good
          (reqs ++ (request thread output_dir good path (concat (bs ++ cs)) ∷ []))
          (u64 (total + length (concat (bs ++ cs))))
          []
          (on_parts (parts_from path (length bs) n cs) w)
  unfolding on_parts
  rest-Stands path n [] bs w reqs total e many fits some_left h = absurd (omega arith)
  rest-Stands path n (c ∷ []) bs w reqs total e many fits some_left h =
      let idx : length bs ≡ u32 (length bs) = omega arith in
      let whole = concat (bs ++ (c ∷ [])) in
      let reqs' = reqs ++ (request thread output_dir good path whole ∷ []) in
      let total' : ℕ = u64 (total + length whole) in
      then-Stands thread output_dir good (on_part thread output_dir path (u32 (length bs)) n c w)
        (λ u. some u) reqs' reqs' total' total' [] []
        (subst
          (λ i.
            Stands thread output_dir good reqs' total' [] (on_part thread output_dir path i n c w))
          idx (last-Stands path c n bs w reqs total (omega arith) many h))
        (λ u g. g)
  rest-Stands path n (c ∷ (d ∷ cs)) bs w reqs total e many fits some_left h =
      let idx : length bs ≡ u32 (length bs) = omega arith in
      let more = bs ++ (c ∷ []) in
      let same : more ++ (d ∷ cs) ≡ bs ++ (c ∷ (d ∷ cs)) = append_assoc bs (c ∷ []) (d ∷ cs) in
      then-Stands thread output_dir good (on_part thread output_dir path (u32 (length bs)) n c w)
        (λ u. on_parts (parts_from path (length bs + 1) n (d ∷ cs)) u) reqs
        (reqs ++ (request thread output_dir good path (concat (bs ++ (c ∷ (d ∷ cs)))) ∷ [])) total
        (u64 (total + length (concat (bs ++ (c ∷ (d ∷ cs)))))) (under_way path n more) []
        (subst
          (λ i.
            Stands thread output_dir good reqs total (under_way path n more)
              (on_part thread output_dir path i n c w))
          idx (middle-Stands path c n bs w reqs total (omega arith) h))
        (λ u g.
          subst
            (λ i.
              Stands thread output_dir good
                (reqs ++ (request thread output_dir good path (concat (bs ++ (c ∷ (d ∷ cs)))) ∷ []))
                (u64 (total + length (concat (bs ++ (c ∷ (d ∷ cs)))))) []
                (on_parts (parts_from path i n (d ∷ cs)) u))
            (length-snoc bs c)
            (subst
              (λ t.
                Stands thread output_dir good
                  (reqs ++ (request thread output_dir good path (concat t) ∷ []))
                  (u64 (total + length (concat t))) []
                  (on_parts (parts_from path (length more) n (d ∷ cs)) u))
              same
              (rest-Stands path n (d ∷ cs) more u reqs total (omega (arith, length-snoc bs c)) many
                fits (omega arith) g)))
