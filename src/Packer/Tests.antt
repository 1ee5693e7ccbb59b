-- ===== src/Packer/Tests.antt =====
-- The theorems on the packer at concrete inputs.
use udpix.Base.{ℕ, ◌≡◌, refl, Bool, true, List, [], ◌∷◌, some, arith}
use udpix.Packer.Pack.{File, pack_files}
use udpix.Packer.Blocks.{unpack_all}
use udpix.Packer.Pieces.{pieces}
use udpix.Packer.AllFiles.{unpack_all-pack_files}

abbrev any_bytes : List ℕ → Bool
any_bytes path = true

abbrev two_files : List File
two_files = (97 ∷ [], 1 ∷ 2 ∷ []) ∷ (98 ∷ [], 3 ∷ []) ∷ []

unpack_all-pack_files_example :
    unpack_all any_bytes (pack_files two_files) ≡ some (pieces two_files)
unpack_all-pack_files_example =
    unpack_all-pack_files any_bytes two_files (omega arith)
      ((refl, omega arith), ((refl, omega arith), tt))
