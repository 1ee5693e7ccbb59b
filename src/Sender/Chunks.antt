-- ===== src/Sender/Chunks.antt =====
-- `payload.chunks(MAX_PAYLOAD)` in crates/protocol/src/sender.rs: the slices of the standard library.
use udpix.Base.{
  ℕ, zero, suc, ◌≤◌, ◌<◌, ◌≡◌, refl, ap, ◌∙◌, List, [], ◌∷◌, ◌++◌, length, take, drop, All,
  length-drop, length-take, take-append-drop, arith,
}
use udpix.Sender.State.{max_payload}

-- The fuel is the length of the rest: every round takes at least one byte.
unfoldable pub chunks_fuel : ℕ → List ℕ → List (List ℕ)
chunks_fuel zero xs = []
chunks_fuel (suc n) [] = []
chunks_fuel (suc n) (x ∷ xs) = take max_payload (x ∷ xs) ∷ chunks_fuel n (drop max_payload (x ∷ xs))

unfoldable pub chunks : List ℕ → List (List ℕ)
chunks xs = chunks_fuel (length xs) xs

abbrev pub concat : List (List ℕ) → List ℕ
concat [] = []
concat (c ∷ cs) = c ++ concat cs

abbrev pub IsChunk : List ℕ → Type 0
IsChunk c = (0 < length c) × (length c ≤ max_payload)

concat-chunks_fuel : (n : ℕ) (xs : List ℕ) → length xs ≤ n → concat (chunks_fuel n xs) ≡ xs
unfolding chunks_fuel
concat-chunks_fuel zero [] h = refl
concat-chunks_fuel zero (x ∷ xs) h = absurd (omega arith)
concat-chunks_fuel (suc n) [] h = refl
concat-chunks_fuel (suc n) (x ∷ xs) h =
    let shorter : length (drop max_payload (x ∷ xs)) ≤ n =
      omega (arith, length-drop max_payload (x ∷ xs)) in
    ap (λ (ys : List ℕ). take max_payload (x ∷ xs) ++ ys)
      (concat-chunks_fuel n (drop max_payload (x ∷ xs)) shorter)
    ∙ take-append-drop max_payload (x ∷ xs)

chunks_fuel-IsChunk : (n : ℕ) (xs : List ℕ) → All IsChunk (chunks_fuel n xs)
unfolding chunks_fuel
chunks_fuel-IsChunk zero xs = tt
chunks_fuel-IsChunk (suc n) [] = tt
chunks_fuel-IsChunk (suc n) (x ∷ xs) =
    let size = length-take max_payload (x ∷ xs) in
    ((omega (arith, size), omega (arith, size)), chunks_fuel-IsChunk n (drop max_payload (x ∷ xs)))

pub concat-chunks : (xs : List ℕ) → concat (chunks xs) ≡ xs
unfolding chunks
concat-chunks xs = concat-chunks_fuel (length xs) xs (omega arith)

pub chunks-IsChunk : (xs : List ℕ) → All IsChunk (chunks xs)
unfolding chunks
chunks-IsChunk xs = chunks_fuel-IsChunk (length xs) xs
