-- ===== src/Base/Raise.antt =====
-- A call that may raise: its value, or the exception.
use mathlib.Core.Path.{◌≡◌, refl}
use mathlib.Core.Logic.{◌⊎◌, inl, inr}
use mathlib.Core.Bool.{Bool, true, false}
use mathlib.Core.Option.{Option, none, some}

pub data Outcome (E A : Type 0) : Type 0 where
  ok : A → Outcome E A
  err : E → Outcome E A

module _ {E A B : Type 0} where
  infixl 5 ◌>>=◌
  -- The call goes on with the value, or the exception leaves it.
  abbrev pub ◌>>=◌ : Outcome E A → (A → Outcome E B) → Outcome E B
  call >>= rest = elim call [ ok v ↦ rest v | err x ↦ err x ]

  -- `call` returned, and the rest of the body made `result` of its value.
  abbrev pub Passes : Outcome E A → (A → Outcome E B) → B → Type 0
  Passes call rest result = (v : A) × (call ≡ ok v) × (rest v ≡ ok result)

  pub >>=-Passes :
      (call : Outcome E A) (rest : A → Outcome E B) {result : B}
      → (call >>= rest) ≡ ok result
      → Passes call rest result
  >>=-Passes (ok v) rest returned = (v, refl, returned)
  >>=-Passes (err x) rest returned = cc

infixl 5 ◌>>◌
-- A call whose value is not used.
abbrev pub ◌>>◌ : {E A B : Type 0} → Outcome E A → Outcome E B → Outcome E B
call >> rest = call >>= λ _. rest

pub Outcome-cases :
    {E A : Type 0} (m : Outcome E A) → ((a : A) × (m ≡ ok a)) ⊎ ((e : E) × (m ≡ err e))
Outcome-cases (ok a) = inl (a, refl)
Outcome-cases (err e) = inr (e, refl)

module _ {E : Type 0} where
  -- `if b: raise e`
  abbrev pub raise_if : Bool → E → Outcome E (Unit {0})
  raise_if true e = err e
  raise_if false e = ok tt

  -- A value that must be there, or the exception.
  abbrev pub or_raise : {A : Type 0} → Option A → E → Outcome E A
  or_raise none e = err e
  or_raise (some a) e = ok a
