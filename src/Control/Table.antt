-- ===== src/Control/Table.antt =====
-- Hash maps keyed by strings, as association lists. A string is the list of its bytes.
use udpix.Base.{
  ℕ, ◌≡◌, ◌≢◌, refl, sym, ap₂, ◌∙◌, Bool, true, false, ◌&&◌, List, [], ◌∷◌, Option, none, some,
  ◌==◌, if◌then◌else◌, arith, inl, inr, Bool-cases, ==→eq, eq→==,
}

abbrev pub Text : Type 0
Text = List ℕ

abbrev pub same_text : Text → Text → Bool
same_text [] [] = true
same_text [] (y ∷ ys) = false
same_text (x ∷ xs) [] = false
same_text (x ∷ xs) (y ∷ ys) = (x == y) && same_text xs ys

pub same_text_refl : (a : Text) → same_text a a ≡ true
same_text_refl [] = refl
same_text_refl (x ∷ xs) = rw (eq→== x x refl, same_text_refl xs)

same_text_eq : (a b : Text) → same_text a b ≡ true → a ≡ b
same_text_eq [] [] h = refl
same_text_eq [] (y ∷ ys) h = ground arith
same_text_eq (x ∷ xs) [] h = ground arith
same_text_eq (x ∷ xs) (y ∷ ys) h = elim (Bool-cases (x == y)) [
  | inl e ↦
      let rest : same_text xs ys ≡ true = rw e at h in
      ap₂ (λ (z : ℕ) (zs : Text). z ∷ zs) (==→eq x y e) (same_text_eq xs ys rest)
  | inr e ↦ let both : false ≡ true = rw e at h in ground arith
]

pub same_text-ne : (a b : Text) → a ≢ b → same_text a b ≡ false
same_text-ne a b differ = elim (Bool-cases (same_text a b)) [
  | inl e ↦ absurd (differ (same_text_eq a b e))
  | inr e ↦ e
]

module _ {V : Type 0} where
  -- `get`.
  unfoldable pub find : Text → List (Text × V) → Option V
  find key [] = none
  find key ((k, v) ∷ m) = let rest = find key m in if same_text k key then some v else rest

  -- `insert`.
  unfoldable pub put : Text → V → List (Text × V) → List (Text × V)
  put key v [] = (key, v) ∷ []
  put key v ((k, w) ∷ m) =
      let rest = put key v m in if same_text k key then (k, v) ∷ m else (k, w) ∷ rest

  -- `remove`.
  unfoldable pub erase : Text → List (Text × V) → List (Text × V)
  erase key [] = []
  erase key ((k, w) ∷ m) = let rest = erase key m in if same_text k key then rest else (k, w) ∷ rest

  pub find-put : (key : Text) (v : V) (m : List (Text × V)) → find key (put key v m) ≡ some v
  unfolding find put
  find-put key v [] = rw (same_text_refl key)
  find-put key v ((k, w) ∷ m) = elim (Bool-cases (same_text k key)) [
    | inl e ↦ rw (e, e) refl
    | inr e ↦ rw (e, e) (find-put key v m)
  ]

  pub find-put_other :
      (key other : Text) (v : V) (m : List (Text × V))
      → key ≢ other
      → find other (put key v m) ≡ find other m
  unfolding find put
  find-put_other key other v [] differ = rw (same_text-ne key other differ)
  find-put_other key other v ((k, w) ∷ m) differ = elim (Bool-cases (same_text k key)) [
    | inl e ↦
        let gone : same_text k other ≡ false =
          same_text-ne k other (λ h. differ (sym (same_text_eq k key e) ∙ h)) in
        rw (e, gone) refl
    | inr e ↦ elim (Bool-cases (same_text k other)) [
      | inl here ↦ rw (e, here) refl
      | inr there ↦ rw (e, there) (find-put_other key other v m differ)
    ]
  ]

  pub find-erase : (key : Text) (m : List (Text × V)) → find key (erase key m) ≡ none
  unfolding find erase
  find-erase key [] = refl
  find-erase key ((k, w) ∷ m) = elim (Bool-cases (same_text k key)) [
    | inl e ↦ rw e (find-erase key m)
    | inr e ↦ rw (e, e) (find-erase key m)
  ]

  pub find-erase_other :
      (key other : Text) (m : List (Text × V))
      → key ≢ other
      → find other (erase key m) ≡ find other m
  unfolding find erase
  find-erase_other key other [] differ = refl
  find-erase_other key other ((k, w) ∷ m) differ = elim (Bool-cases (same_text k key)) [
    | inl e ↦
        let gone : same_text k other ≡ false =
          same_text-ne k other (λ h. differ (sym (same_text_eq k key e) ∙ h)) in
        rw (e, gone) (find-erase_other key other m differ)
    | inr e ↦ elim (Bool-cases (same_text k other)) [
      | inl here ↦ rw (e, here) refl
      | inr there ↦ rw (e, there) (find-erase_other key other m differ)
    ]
  ]
