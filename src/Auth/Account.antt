-- ===== src/Auth/Account.antt =====
-- The account that a login names, told by the columns of the rows.
use backend_ssas_rrhh.Base.{
  ℕ, ◌≡◌, refl, ◌↔◌, ◌⊎◌, inl, inr, true, false, not, Option, none, some, List, [], ◌∷◌, ◌==◌, any,
  is_some, Bool-cases, arith,
}
use backend_ssas_rrhh.Auth.Text.{Text, Letters, strip}
use backend_ssas_rrhh.Auth.Quantifiers.{Some, Some-any}
use backend_ssas_rrhh.Auth.Infix.{text_eq_iff}
use backend_ssas_rrhh.Auth.Store.{
  EmpresaRow, UserRow, in_empresa, identifies, login_scope, login_row,
}

module _ (l : Letters) where
  -- The user is of the company that the request names: of the platform, if it names none; of a company
  -- that is active and not deleted and has the slug, if it names one.
  abbrev pub InCompany : List EmpresaRow → Option Text → Option ℕ → Type 0
  InCompany es none empresa_id = empresa_id ≡ none
  InCompany es (some slug) empresa_id =
      Some
        (λ (e : EmpresaRow).
          (empresa_id ≡ some e.id)
          × (l.sql_lower e.slug ≡ l.lower (strip slug))
          × (e.activo ≡ true)
          × (e.eliminado_at ≡ none))
        es

  -- The login is the user's e-mail, if there is an `@` in it, and the user's name otherwise.
  abbrev pub IsLogin : Text → UserRow → Type 0
  IsLogin login u =
      ((any (λ c. c == 64) login ≡ true) × (l.sql_lower u.email ≡ login))
      ⊎ ((any (λ c. c == 64) login ≡ false) × (l.sql_lower u.username ≡ login))

  -- The row is of an account that is not deleted, in the company, with the login.
  abbrev pub Answers : List EmpresaRow → Option Text → Text → UserRow → Type 0
  Answers es slug login u =
      InCompany es slug u.empresa_id × (u.eliminado_at ≡ none) × IsLogin (l.lower (strip login)) u

  is_none_iff : {B : Type 0} (o : Option B) → (o ≡ none) ↔ (not (is_some o) ≡ true)
  is_none_iff none = (λ e. refl, λ e. refl)
  is_none_iff (some b) = (λ e. cc, λ e. cc)

  InCompany-in_empresa :
      (es : List EmpresaRow) (slug : Text) (empresa_id : Option ℕ)
      → InCompany es (some slug) empresa_id ↔ (in_empresa l es slug empresa_id ≡ true)
  unfolding in_empresa
  InCompany-in_empresa [] slug none = (λ none_. absurd none_, λ e. cc)
  InCompany-in_empresa (e ∷ es) slug none = (
    λ some_. elim some_ [ inl here ↦ cc | inr there ↦ (InCompany-in_empresa es slug none).0 there ],
    λ passed. cc,
  )
  InCompany-in_empresa es slug (some k) =
      Some-any _ _
        (λ e.
          let alive = is_none_iff e.eliminado_at in
          let called = text_eq_iff (l.sql_lower e.slug) (l.lower (strip slug)) in
          (
            λ (a, b, d, f). ground (arith, alive.0 f, called.0 b),
            λ passed. (ground arith, called.1 (ground arith), ground arith, alive.1 (ground arith)),
          ))
        es

  InCompany-login_scope :
      (es : List EmpresaRow) (slug : Option Text) (u : UserRow)
      → InCompany es slug u.empresa_id ↔ (login_scope l es slug u ≡ true)
  unfolding login_scope
  InCompany-login_scope es none u = is_none_iff u.empresa_id
  InCompany-login_scope es (some slug) u = InCompany-in_empresa es slug u.empresa_id

  IsLogin-identifies :
      (login : Text) (u : UserRow) → IsLogin login u ↔ (identifies l login u ≡ true)
  unfolding identifies
  IsLogin-identifies login u =
      let email = text_eq_iff (l.sql_lower u.email) login in
      let name = text_eq_iff (l.sql_lower u.username) login in
      elim (Bool-cases (any (λ c. c == 64) login)) [
        | inl passes ↦ (
          λ either. elim either [ inl (_, same) ↦ rw passes (email.0 same) | inr (no_at, _) ↦ cc ],
          λ passed. inl (passes, email.1 (ground arith)),
        )
        | inr fails ↦ (
          λ either. elim either [ inl (has_at, _) ↦ cc | inr (_, same) ↦ rw fails (name.0 same) ],
          λ passed. inr (fails, name.1 (ground arith)),
        )
      ]

  pub Answers-login_row :
      (es : List EmpresaRow) (slug : Option Text) (login : Text) (u : UserRow)
      → Answers es slug login u ↔ (login_row l es slug login u ≡ true)
  Answers-login_row es slug login u =
      let scope = InCompany-login_scope es slug u in
      let alive = is_none_iff u.eliminado_at in
      let named = IsLogin-identifies (l.lower (strip login)) u in
      (
        λ (a, b, d). rw (scope.0 a, alive.0 b, named.0 d) refl,
        λ e. (scope.1 (ground arith), alive.1 (ground arith), named.1 (ground arith)),
      )
