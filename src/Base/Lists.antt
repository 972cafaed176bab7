-- ===== src/Base/Lists.antt =====
-- Lists as Python sequences and as tables of rows.
use Prim.Native.Nat.{ℕ, suc}
use Prim.Native.String.{String}
use mathlib.Core.Path.{◌≡◌, refl}
use mathlib.Core.Bool.{Bool, true, false, ◌||◌}
use mathlib.Core.Option.{Option, none, some}
use mathlib.Core.List.{List, [], ◌∷◌, ◌++◌}
use native.Mathlib.Omega.{arith}
use text.Mathlib.Text.{◌==◌}
use backend_ssas_rrhh.Base.Tests.{if◌then◌else◌}

module _ {ℓ} {A : Type ℓ} where
  abbrev pub length : List A → ℕ
  length [] = 0
  length (x ∷ xs) = suc (length xs)

  -- A property of every element.
  abbrev pub All {κ} : (A → Type κ) → List A → Type κ
  All P [] = Unit
  All P (x ∷ xs) = P x × All P xs

  -- `any(p(x) for x in xs)`
  abbrev pub any : (A → Bool) → List A → Bool
  any p [] = false
  any p (x ∷ xs) = p x || any p xs

  -- `session.scalar(select(...).where(p))`: the first row that fits, or `None`.
  abbrev pub find_first : (A → Bool) → List A → Option A
  find_first p [] = none
  find_first p (x ∷ xs) = if p x then some x else find_first p xs

  -- `select(...).where(p)`
  abbrev pub where_rows : (A → Bool) → List A → List A
  where_rows p [] = []
  where_rows p (x ∷ xs) = let rest = where_rows p xs in if p x then x ∷ rest else rest

  -- `update(...).where(p).values(f)`
  abbrev pub update_where : (A → Bool) → (A → A) → List A → List A
  update_where p f [] = []
  update_where p f (x ∷ xs) = (if p x then f x else x) ∷ update_where p f xs

  -- `session.add(row)`
  abbrev pub add_row : A → List A → List A
  add_row r xs = xs ++ r ∷ []

  pub All-append {κ} :
      (P : A → Type κ) (before after : List A)
      → All P before × All P after
      → All P (before ++ after)
  All-append P [] after (_, good) = good
  All-append P (row ∷ before) after ((p, ps), good) = (p, All-append P before after (ps, good))

-- `s in xs`, for texts.
abbrev pub member : String → List String → Bool
member s xs = any (λ t. t == s) xs

module _ {ℓ} {A : Type ℓ} where
  -- The row that an update leaves of one row.
  abbrev pub updated : (A → Bool) → (A → A) → A → A
  updated p f x = if p x then f x else x

  abbrev pub updated? : (A → Bool) → (A → A) → Option A → Option A
  updated? p f none = none
  updated? p f (some x) = some (updated p f x)

  -- An update that leaves alone what a query tests leaves the row that the query finds, updated.
  pub find_first-update_where :
      (q p : A → Bool) (f : A → A) (xs : List A)
      → ((x : A) → q (f x) ≡ q x)
      → find_first q (update_where p f xs) ≡ updated? p f (find_first q xs)
  find_first-update_where q p f [] h = refl
  find_first-update_where q p f (x ∷ xs) h = ground (arith, h x, find_first-update_where q p f xs h)

  -- A row that is found passes the test.
  pub find_first-passes :
      (q : A → Bool) (xs : List A) {x : A} → find_first q xs ≡ some x → q x ≡ true
  find_first-passes q [] e = cc
  find_first-passes q (y ∷ xs) {x} e = ground (arith, find_first-passes q xs {x = x})
