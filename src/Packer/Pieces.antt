-- ===== src/Packer/Pieces.antt =====
-- The pieces that a file is packed as (crates/ioengine/src/packer.rs).
use udpix.Base.{
  ℕ, zero, suc, ◌≤◌, ◌≡◌, ◌+◌, ap₂, refl, ap, ◌∙◌, List, [], ◌∷◌, ◌++◌, ltb, if◌then◌else◌, length,
  take, drop, All, length-take, length-drop, take-append-drop, arith, inl, inr, Bool-cases,
  append-nil,
}
use udpix.Packer.Wire.{block_size}
use udpix.Base.Bytes.{u32}
use udpix.Packer.Pack.{File, split_fuel, part_count}

-- The pieces that a file is stored as: itself, or its parts of at most a block.
abbrev pub pieces_from : List ℕ → List (List ℕ) → List File
pieces_from path [] = []
pieces_from path (c ∷ cs) = (path, c) ∷ pieces_from path cs

abbrev pub pieces : List File → List File
pieces [] = []
pieces ((path, bytes) ∷ files) =
    (if ltb block_size (length bytes)
      then pieces_from path (split_fuel (length bytes) bytes)
      else (path, bytes) ∷ [])
    ++ pieces files

-- A piece with its part's number and the number of parts, as the manifest has them.
pub record Piece : Type 0 where
  pub path : List ℕ
  pub part_index : ℕ
  pub total_parts : ℕ
  pub bytes : List ℕ

abbrev pub piece : List ℕ → ℕ → ℕ → List ℕ → Piece
piece path part_index total_parts bytes = record {
  path = path;
  part_index = part_index;
  total_parts = total_parts;
  bytes = bytes;
}

abbrev pub parts_from : List ℕ → ℕ → ℕ → List (List ℕ) → List Piece
parts_from path part_idx total_parts [] = []
parts_from path part_idx total_parts (c ∷ cs) =
    piece path (u32 part_idx) total_parts c ∷ parts_from path (part_idx + 1) total_parts cs

-- The pieces of files with their numbers: one of one, or the parts in order.
abbrev pub parts_of : File → List Piece
parts_of (path, bytes) =
    if ltb block_size (length bytes)
    then parts_from path 0 (part_count bytes) (split_fuel (length bytes) bytes)
    else piece path 0 1 bytes ∷ []

abbrev pub parts : List File → List Piece
parts [] = []
parts (file ∷ files) = parts_of file ++ parts files

-- The pieces without their numbers.
abbrev pub plain_pieces : List Piece → List File
plain_pieces [] = []
plain_pieces (p ∷ ps) = (p.path, p.bytes) ∷ plain_pieces ps

plain_pieces-append :
    (ps qs : List Piece) → plain_pieces (ps ++ qs) ≡ plain_pieces ps ++ plain_pieces qs
plain_pieces-append [] qs = refl
plain_pieces-append (p ∷ ps) qs =
    ap (λ (t : List File). (p.path, p.bytes) ∷ t) (plain_pieces-append ps qs)

plain_pieces-parts_from :
    (path : List ℕ) (part_idx total_parts : ℕ) (cs : List (List ℕ))
    → plain_pieces (parts_from path part_idx total_parts cs) ≡ pieces_from path cs
plain_pieces-parts_from path part_idx total_parts [] = refl
plain_pieces-parts_from path part_idx total_parts (c ∷ cs) =
    ap (λ (t : List File). (path, c) ∷ t)
      (plain_pieces-parts_from path (part_idx + 1) total_parts cs)

pub plain_pieces-parts : (files : List File) → plain_pieces (parts files) ≡ pieces files
plain_pieces-parts [] = refl
plain_pieces-parts ((path, bytes) ∷ files) = elim (Bool-cases (ltb block_size (length bytes))) [
  | inl large ↦
      let cs = split_fuel (length bytes) bytes in
      let front = parts_from path 0 (part_count bytes) cs in
      rw large (
        plain_pieces-append front (parts files)
        ∙ ap₂ (λ (x y : List File). x ++ y) (plain_pieces-parts_from path 0 (part_count bytes) cs)
            (plain_pieces-parts files))
  | inr small ↦ rw small (ap (λ (t : List File). (path, bytes) ∷ t) (plain_pieces-parts files))
]

abbrev pub joined : List File → List ℕ
joined [] = []
joined ((path, bytes) ∷ ps) = bytes ++ joined ps

abbrev pub Sized : List ℕ → Type 0
Sized c = length c ≤ block_size

pub split_fuel-Sized : (n : ℕ) (xs : List ℕ) → All Sized (split_fuel n xs)
unfolding split_fuel
split_fuel-Sized zero xs = tt
split_fuel-Sized (suc n) [] = tt
split_fuel-Sized (suc n) (x ∷ xs) =
    (omega (arith, length-take block_size (x ∷ xs)), split_fuel-Sized n (drop block_size (x ∷ xs)))

joined-split_fuel :
    (path : List ℕ) (n : ℕ) (xs : List ℕ)
    → length xs ≤ n
    → joined (pieces_from path (split_fuel n xs)) ≡ xs
unfolding split_fuel
joined-split_fuel path zero [] h = refl
joined-split_fuel path zero (x ∷ xs) h = absurd (omega arith)
joined-split_fuel path (suc n) [] h = refl
joined-split_fuel path (suc n) (x ∷ xs) h =
    let rest = drop block_size (x ∷ xs) in
    ap (λ (t : List ℕ). take block_size (x ∷ xs) ++ t)
      (joined-split_fuel path n rest (omega (arith, length-drop block_size (x ∷ xs))))
    ∙ take-append-drop block_size (x ∷ xs)

-- The pieces of a file put together are the file.
pub joined-pieces : (path bytes : List ℕ) → joined (pieces ((path, bytes) ∷ [])) ≡ bytes
joined-pieces path bytes = elim (Bool-cases (ltb block_size (length bytes))) [
  | inl large ↦ rw large (
      ap (λ (t : List File). joined t)
        (append-nil (pieces_from path (split_fuel (length bytes) bytes)))
      ∙ joined-split_fuel path (length bytes) bytes (omega arith))
  | inr small ↦ rw small (append-nil bytes)
]
