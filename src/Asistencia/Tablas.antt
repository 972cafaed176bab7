-- ===== src/Asistencia/Tablas.antt =====
-- Tables whose rows have different keys.
use backend_ssas_rrhh.Base.{
  ℕ, ◌≡◌, refl, sym, ap, ◌∙◌, ◌⊎◌, inl, inr, Bool, true, false, some, List, [], ◌∷◌, ◌==◌, leb, any,
  All, find_first, where_rows, add_row, arith, Bool-cases, Option-cases,
}
use mathlib.Core.Path.{subst}
use backend_ssas_rrhh.Reclutamiento.Lookup.{update_key}
use backend_ssas_rrhh.Asistencia.Lookup.{greatest_by}

module _ {A : Type 0} where
  -- The row stands in the table.
  abbrev pub In : A → List A → Type 0
  In r [] = ⊥
  In r (x ∷ xs) = (r ≡ x) ⊎ In r xs

  pub find_first-In :
      (q : A → Bool) (rows : List A) (r : A) → find_first q rows ≡ some r → In r rows
  find_first-In q [] r found = cc
  find_first-In q (x ∷ xs) r found = elim (Bool-cases (q x)) [
    | inl here ↦ inl (ground arith)
    | inr other ↦ inr (find_first-In q xs r (ground arith))
  ]

  pub where_rows-In :
      (q : A → Bool) (rows : List A) (r : A) → In r (where_rows q rows) → In r rows × (q r ≡ true)
  where_rows-In q [] r there = absurd there
  where_rows-In q (x ∷ xs) r there =
      let before = where_rows-In q xs r in
      elim (Bool-cases (q x)) [
        | inl passes ↦ kept before passes (rw passes at there)
        | inr other ↦ later (before (rw other at there))
      ]
    where
      later : In r xs × (q r ≡ true) → In r (x ∷ xs) × (q r ≡ true)
      later (stands, passes) = (inr stands, passes)

      kept :
          (In r (where_rows q xs) → In r xs × (q r ≡ true))
          → q x ≡ true
          → In r (x ∷ where_rows q xs)
          → In r (x ∷ xs) × (q r ≡ true)
      kept before passes (inl same) = (inl same, ap q same ∙ passes)
      kept before passes (inr rest) = later (before rest)

  pub greatest_by-In :
      (key : A → ℕ) (rows : List A) (r : A) → greatest_by key rows ≡ some r → In r rows
  greatest_by-In key [] r found = cc
  greatest_by-In key (x ∷ xs) r found = elim (Option-cases (greatest_by key xs)) [
    | inl nothing ↦ inl (ground arith)
    | inr (y, best) ↦ elim (Bool-cases (leb (key y) (key x))) [
      | inl here ↦ inl (ground arith)
      | inr other ↦ inr (greatest_by-In key xs r (ground arith))
    ]
  ]

  pub All-In {κ} : (P : A → Type κ) (rows : List A) (r : A) → All P rows → In r rows → P r
  All-In P [] r every there = absurd there
  All-In P (x ∷ xs) r (here, rest) (inl same) = subst P (sym same) here
  All-In P (x ∷ xs) r (here, rest) (inr there) = All-In P xs r rest there

  pub All-add_row {κ} :
      (P : A → Type κ) (n : A) (rows : List A) → All P rows → P n → All P (add_row n rows)
  All-add_row P n [] every last = (last, tt)
  All-add_row P n (x ∷ xs) (here, rest) last = (here, All-add_row P n xs rest last)

  pub All-map {κ ℓ} :
      (P : A → Type κ) (Q : A → Type ℓ) (rows : List A)
      → ((x : A) → In x rows → P x → Q x)
      → All P rows
      → All Q rows
  All-map P Q [] step every = tt
  All-map P Q (x ∷ xs) step (here, rest) =
      (step x (inl refl) here, All-map P Q xs (λ y stands. step y (inr stands)) rest)

  pub any-add_row :
      (q : A → Bool) (n : A) (rows : List A)
      → any q rows ≡ false
      → q n ≡ false
      → any q (add_row n rows) ≡ false
  any-add_row q n [] none_is last = ground arith
  any-add_row q n (x ∷ xs) none_is last = ground (arith, any-add_row q n xs)

  -- A test that no row passes is not passed by a row of the table.
  pub any-In : (q : A → Bool) (rows : List A) (r : A) → any q rows ≡ false → In r rows → q r ≡ false
  any-In q [] r none_is there = absurd there
  any-In q (x ∷ xs) r none_is (inl same) = ap q same ∙ ground arith
  any-In q (x ∷ xs) r none_is (inr there) = any-In q xs r (ground arith) there

module _ {A : Type 0} (key : A → ℕ) (i : ℕ) (f : A → A) where
  -- No row passes the test after a change by which the row does not pass it.
  pub any-changed :
      (q : A → Bool) (rows : List A)
      → any q rows ≡ false
      → ((x : A) → q (f x) ≡ false)
      → any q (update_key key i f rows) ≡ false
  any-changed q [] none_is last = refl
  any-changed q (x ∷ xs) none_is last = ground (arith, last x, any-changed q xs)

  pub All-changed {κ} :
      (P : A → Type κ) (rows : List A) (x : A)
      → find_first (λ r. key r == i) rows ≡ some x
      → P (f x)
      → All P rows
      → All P (update_key key i f rows)
  All-changed P [] x found last every = tt
  All-changed P (y ∷ ys) x found last (here, rest) = elim (Bool-cases (key y == i)) [
    | inl same ↦
        let at_x : y ≡ x = ground arith in rw same (subst (λ r. P (f r)) (sym at_x) last, rest)
    | inr other ↦ rw other (here, All-changed P ys x (ground arith) last rest)
  ]

module _ {A : Type 0} (key : A → ℕ) where
  abbrev pub Distinct : List A → Type 0
  Distinct [] = Unit
  Distinct (x ∷ xs) = (any (λ r. key r == key x) xs ≡ false) × Distinct xs

  -- A row of the table is the first with its key.
  pub find_first-Distinct :
      (rows : List A) (r : A)
      → Distinct rows
      → In r rows
      → find_first (λ s. key s == key r) rows ≡ some r
  find_first-Distinct [] r distinct there = absurd there
  find_first-Distinct (x ∷ xs) r (first, rest) (inl same) =
      let keys : key x ≡ key r = ap key (sym same) in ground arith
  find_first-Distinct (x ∷ xs) r (first, rest) (inr there) =
      let other = any-In (λ s. key s == key x) xs r first there in
      let found = find_first-Distinct xs r rest there in ground arith

  pub Distinct-add_row :
      (n : A) (rows : List A)
      → any (λ s. key s == key n) rows ≡ false
      → Distinct rows
      → Distinct (add_row n rows)
  Distinct-add_row n [] fresh distinct = (refl, tt)
  Distinct-add_row n (x ∷ xs) fresh (first, rest) = (
    any-add_row (λ r. key r == key x) n xs first (ground arith),
    Distinct-add_row n xs (ground arith) rest,
  )

  module _ (i : ℕ) (f : A → A) (kept : (x : A) → key (f x) ≡ key x) where
    any-update_key :
        (k : ℕ) (rows : List A)
        → any (λ s. key s == k) (update_key key i f rows) ≡ any (λ s. key s == k) rows
    any-update_key k [] = refl
    any-update_key k (x ∷ xs) = ground (arith, kept x, any-update_key k xs)

    pub Distinct-update_key : (rows : List A) → Distinct rows → Distinct (update_key key i f rows)
    Distinct-update_key [] distinct = tt
    Distinct-update_key (x ∷ xs) (first, rest) = elim (Bool-cases (key x == i)) [
      | inl same ↦ rw same (rw (kept x) first, rest)
      | inr other ↦ rw other (any-update_key (key x) xs ∙ first, Distinct-update_key xs rest)
    ]
