-- ===== src/Reclutamiento/Keys.antt =====
-- Tables with a key: what a change of one row, a new row or a deletion does to a query and to a count.
use backend_ssas_rrhh.Base.{
  ℕ, ◌+◌, ◌≡◌, refl, ◌⊎◌, inl, inr, Bool, true, false, not, Option, none, some, List, [], ◌∷◌, ◌==◌,
  any, find_first, where_rows, add_row, arith, if◌then◌else◌, Option-cases, ◌∙◌, find_first-passes,
  ok, or_raise, ap,
}
use backend_ssas_rrhh.Reclutamiento.Lookup.{find_key, update_key, count}

module _ {ℓ} {A : Type ℓ} where
  abbrev pub applied? : (A → A) → Option A → Option A
  applied? f none = none
  applied? f (some x) = some (f x)

module _ {ℓ} {A : Type ℓ} (key : A → ℕ) (i : ℕ) (f : A → A)
    (kept : (x : A) → key (f x) ≡ key x) where
  pub find_first-update_key :
      (rows : List A)
      → find_first (λ r. key r == i) (update_key key i f rows)
        ≡ applied? f (find_first (λ r. key r == i) rows)
  find_first-update_key [] = refl
  find_first-update_key (x ∷ xs) = ground (arith, kept x, find_first-update_key xs)

  pub find_first-update_key_other :
      (j : ℕ) (rows : List A)
      → (i == j) ≡ false
      → find_first (λ r. key r == j) (update_key key i f rows) ≡ find_first (λ r. key r == j) rows
  find_first-update_key_other j [] apart = refl
  find_first-update_key_other j (x ∷ xs) apart =
      ground (arith, kept x, find_first-update_key_other j xs apart)

module _ {ℓ} {A : Type ℓ} (key : A → ℕ) (i : ℕ) (f : A → A) (q : A → Bool) where
  -- A change that the test does not see.
  pub count-update_key :
      (rows : List A) {x : A}
      → find_first (λ r. key r == i) rows ≡ some x
      → q (f x) ≡ q x
      → count q (update_key key i f rows) ≡ count q rows
  count-update_key [] found same = cc
  count-update_key (y ∷ ys) {x} found same = ground (arith, count-update_key ys {x = x})

  -- A change by which the row comes to pass the test.
  pub count-gains :
      (rows : List A) {x : A}
      → find_first (λ r. key r == i) rows ≡ some x
      → q x ≡ false
      → q (f x) ≡ true
      → count q (update_key key i f rows) ≡ count q rows + 1
  count-gains [] found before after = cc
  count-gains (y ∷ ys) {x} found before after = ground (arith, count-gains ys {x = x})

module _ {ℓ} {A : Type ℓ} (q : A → Bool) where
  pub count-add_row :
      (r : A) (rows : List A) → count q (add_row r rows) ≡ count q rows + (if q r then 1 else 0)
  count-add_row r [] = ground arith
  count-add_row r (x ∷ xs) = ground (arith, count-add_row r xs)

  pub count-none : (rows : List A) → any q rows ≡ false → count q rows ≡ 0
  count-none [] h = refl
  count-none (x ∷ xs) h = ground (arith, count-none xs)

  pub find_first-nowhere : (rows : List A) → find_first q rows ≡ none → any q rows ≡ false
  find_first-nowhere [] h = refl
  find_first-nowhere (x ∷ xs) h = ground (arith, find_first-nowhere xs)

  -- A row that is found after one was added was there, or is the new one.
  pub find_first-add_row :
      (r : A) (rows : List A) {x : A}
      → find_first q (add_row r rows) ≡ some x
      → (find_first q rows ≡ some x) ⊎ ((x ≡ r) × (q r ≡ true))
  find_first-add_row r [] {x} found = ground arith
  find_first-add_row r (y ∷ ys) {x} found = ground (arith, find_first-add_row r ys {x = x})

  abbrev pub or_new : A → Option A → Option A
  or_new r (some x) = some x
  or_new r none = if q r then some r else none

  -- The rows that were there come before the new one.
  pub find_first-or_new :
      (r : A) (rows : List A) → find_first q (add_row r rows) ≡ or_new r (find_first q rows)
  find_first-or_new r [] = refl
  find_first-or_new r (y ∷ ys) = ground (arith, find_first-or_new r ys)

  -- A row that is found passes no test that no row passes.
  pub any-find_first :
      (p : A → Bool) (rows : List A) {x : A}
      → any p rows ≡ false
      → find_first q rows ≡ some x
      → p x ≡ false
  any-find_first p [] none_does found = cc
  any-find_first p (y ∷ ys) {x} none_does found = ground (arith, any-find_first p ys {x = x})

-- A stronger test is passed by no row either.
pub any-weaker {ℓ} :
    {A : Type ℓ} (p q : A → Bool)
    → ((x : A) → p x ≡ true → q x ≡ true)
    → (rows : List A) → any q rows ≡ false
    → any p rows ≡ false
any-weaker p q imp [] h = refl
any-weaker p q imp (x ∷ xs) h = ground (arith, imp x, any-weaker p q imp xs)

module _ {A : Type 0} (key : A → ℕ) where
  pub delete_all :
      (i : ℕ) (rows : List A)
      → find_first (λ r. key r == i) (where_rows (λ r. not (key r == i)) rows) ≡ none
  delete_all i [] = refl
  delete_all i (y ∷ ys) = ground (arith, delete_all i ys)

  pub delete_others :
      (i j : ℕ) (rows : List A)
      → (i == j) ≡ false
      → find_first (λ r. key r == j) (where_rows (λ r. not (key r == i)) rows)
        ≡ find_first (λ r. key r == j) rows
  delete_others i j [] apart = refl
  delete_others i j (y ∷ ys) apart = ground (arith, delete_others i j ys apart)

  -- The row that a query by key gives has the key, is the first with it, and passes the test.
  pub find_key-found :
      (i : ℕ) (p : A → Bool) (rows : List A) {x : A}
      → find_key key i p rows ≡ some x
      → (find_first (λ r. key r == i) rows ≡ some x) × (key x ≡ i) × (p x ≡ true)
  find_key-found i p rows {x} found = elim (Option-cases (find_first (λ r. key r == i) rows)) [
    | inl missing ↦ ground arith
    | inr (y, here) ↦
        let has = find_first-passes (λ r. key r == i) rows {x = y} here in ground arith
  ]

  -- The row that a query by key gives to a request.
  pub or_raise-found :
      {E : Type 0} (i : ℕ) (p : A → Bool) (rows : List A) (e : E) {x : A}
      → or_raise (find_key key i p rows) e ≡ ok x
      → (find_first (λ r. key r == i) rows ≡ some x) × (key x ≡ i) × (p x ≡ true)
  or_raise-found i p rows e {x} got = elim (Option-cases (find_key key i p rows)) [
    | inl missing ↦ ground arith
    | inr (y, there) ↦
        let same : y ≡ x = ground arith in find_key-found i p rows (there ∙ ap some same)
  ]
