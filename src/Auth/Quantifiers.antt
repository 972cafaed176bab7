-- ===== src/Auth/Quantifiers.antt =====
-- What some, the first and no element of a list are, and the Boolean tests of them.
use backend_ssas_rrhh.Base.{
  ◌≡◌, refl, ◌↔◌, ◌⊎◌, inl, inr, Bool, true, false, some, List, [], ◌∷◌, any, All, find_first,
  Bool-cases, arith,
}

module _ {ℓ} {A : Type ℓ} where
  -- An element of the list has the property.
  abbrev pub Some : (A → Type 0) → List A → Type 0
  Some P [] = ⊥
  Some P (x ∷ xs) = P x ⊎ Some P xs

  -- The list has elements with `P`, and the first of them has `Q`.
  abbrev pub First : (P Q : A → Type 0) → List A → Type 0
  First P Q [] = ⊥
  First P Q (x ∷ xs) = (P x × Q x) ⊎ (¬ P x × First P Q xs)

  pub Some-any :
      (P : A → Type 0) (p : A → Bool)
      → ((x : A) → P x ↔ (p x ≡ true))
      → (xs : List A) → Some P xs ↔ (any p xs ≡ true)
  Some-any P p same [] = (λ none_. absurd none_, λ e. cc)
  Some-any P p same (x ∷ xs) =
      let more = Some-any P p same xs in
      (
        λ some_. elim some_ [
          | inl here ↦ rw ((same x).0 here) refl
          | inr there ↦ elim (Bool-cases (p x)) [
            | inl passes ↦ rw passes refl
            | inr fails ↦ rw (fails, more.0 there) refl
          ]
        ],
        λ passed. elim (Bool-cases (p x)) [
          | inl passes ↦ inl ((same x).1 passes)
          | inr fails ↦ inr (more.1 (ground arith))
        ],
      )

  pub First-find :
      (P Q : A → Type 0) (p : A → Bool)
      → ((x : A) → P x ↔ (p x ≡ true))
      → (xs : List A) → First P Q xs ↔ ((x : A) × (find_first p xs ≡ some x) × Q x)
  First-find P Q p same [] = (λ none_. absurd none_, λ (x, e, q). ground arith)
  First-find P Q p same (x ∷ xs) =
      let more = First-find P Q p same xs in
      (
        λ first. elim first [
          | inl (here, q) ↦ (x, rw ((same x).0 here) refl, q)
          | inr (not_here, there) ↦ elim (Bool-cases (p x)) [
            | inl passes ↦ absurd (not_here ((same x).1 passes))
            | inr fails ↦ let (y, e, q) = more.0 there in (y, rw (fails, e) refl, q)
          ]
        ],
        λ (y, e, q). elim (Bool-cases (p x)) [
          | inl passes ↦ let found : x ≡ y = ground arith in inl ((same x).1 passes, rw found q)
          | inr fails ↦ inr (λ here. ground (arith, (same x).0 here), more.1 (y, ground arith, q))
        ],
      )

  pub All-any :
      (P : A → Type 0) (p : A → Bool)
      → ((x : A) → P x ↔ (p x ≡ true))
      → (xs : List A) → All (λ x. ¬ P x) xs ↔ (any p xs ≡ false)
  All-any P p same [] = (λ _. refl, λ _. tt)
  All-any P p same (x ∷ xs) =
      let more = All-any P p same xs in
      (
        λ (not_here, others). elim (Bool-cases (p x)) [
          | inl passes ↦ absurd (not_here ((same x).1 passes))
          | inr fails ↦ rw (fails, more.0 others) refl
        ],
        λ failed. (λ here. ground (arith, (same x).0 here), more.1 (ground arith)),
      )
