-- ===== src/Auth/Usable.antt =====
-- Who may use the system: the tests of `LoginUser` and `RefreshToken`, and the rows that pass them.
use backend_ssas_rrhh.Base.{
  ℕ, ap, ◌≡◌, ◌≤◌, refl, List, [], ◌∷◌, none, find_first, Bool-cases, ◌↔◌, inl, inr, true, false,
  not, ◌&&◌, Option, some, ◌==◌, is_some, Option-cases, arith,
}
use backend_ssas_rrhh.Auth.Text.{Text}
use backend_ssas_rrhh.Auth.Store.{RoleRow, EmpresaRow, UserRow, User, active_roles, empresa_active}
use backend_ssas_rrhh.Auth.Quantifiers.{Some, First, First-find}
use backend_ssas_rrhh.Auth.Jwt.{Crypto}
use backend_ssas_rrhh.Auth.UseCases.{is_locked, is_empty}

-- The user may use the system now.
pub record Usable (now : ℕ) (u : User) : Type 0 where
  pub active : u.is_active ≡ true
  pub has_role : is_empty u.roles ≡ false
  pub company : is_some u.empresa_id && not u.empresa_is_active ≡ false
  pub verified : u.email_verified ≡ true
  pub unlocked : is_locked now u.locked_until ≡ false

-- The company of an account, if it has one, is active.
abbrev pub OfActive : List EmpresaRow → Option ℕ → Type 0
OfActive es none = Unit
OfActive es (some k) = First (λ (e : EmpresaRow). e.id ≡ k) (λ (e : EmpresaRow). e.activo ≡ true) es

-- There is no lock, or it has run out.
abbrev pub Unlocked : ℕ → Option ℕ → Type 0
Unlocked now none = Unit
Unlocked now (some t) = t ≤ now

-- The row may use the system now, with the password.
pub record MayEnter (c : Crypto) (now : ℕ) (password : Text) (es : List EmpresaRow) (u : UserRow)
    : Type 0 where
  pub right_password : c.verify password u.hashed_password ≡ true
  pub active : u.is_active ≡ true
  pub has_role : Some (λ (r : RoleRow). r.is_active ≡ true) u.roles
  pub company : OfActive es u.empresa_id
  pub verified : u.email_verified ≡ true
  pub unlocked : Unlocked now u.bloqueado_hasta

pub active_roles-is_empty :
    (rs : List RoleRow)
    → Some (λ (r : RoleRow). r.is_active ≡ true) rs ↔ (is_empty (active_roles rs) ≡ false)
unfolding active_roles
active_roles-is_empty [] = (λ none_. absurd none_, λ e. cc)
active_roles-is_empty (r ∷ rs) =
    let more = active_roles-is_empty rs in
    elim (Bool-cases r.is_active) [
      | inl passes ↦ (λ some_. rw passes refl, λ full. inl passes)
      | inr fails ↦ (
        λ some_. elim some_ [ inl here ↦ cc | inr there ↦ rw fails (more.0 there) ],
        λ full. inr (more.1 (ground arith)),
      )
    ]

empresa_active-found :
    (es : List EmpresaRow) (k : ℕ) (e : EmpresaRow)
    → find_first (λ (e : EmpresaRow). e.id == k) es ≡ some e
    → empresa_active es (some k) ≡ e.activo
unfolding empresa_active
empresa_active-found es k e there =
    ap (λ (o : Option EmpresaRow). elim o [ none ↦ false | some found ↦ found.activo ]) there

pub OfActive-empresa_active :
    (es : List EmpresaRow) (empresa_id : Option ℕ)
    → OfActive es empresa_id ↔ (is_some empresa_id && not (empresa_active es empresa_id) ≡ false)
unfolding empresa_active
OfActive-empresa_active es none = (λ _. refl, λ _. tt)
OfActive-empresa_active es (some k) =
    let first =
      First-find (λ (e : EmpresaRow). e.id ≡ k) (λ (e : EmpresaRow). e.activo ≡ true)
        (λ e. e.id == k) (λ e. ground arith) es in
    (
      λ found.
          let (e, there, active) = first.0 found in
          rw (empresa_active-found es k e there) (ap not active),
      λ passed. elim (Option-cases (find_first (λ (e : EmpresaRow). e.id == k) es)) [
        | inl absent ↦ ground arith
        | inr (e, there) ↦ first.1 (e, there, ground arith)
      ],
    )

pub Unlocked-is_locked :
    (now : ℕ) (lock : Option ℕ) → Unlocked now lock ↔ (is_locked now lock ≡ false)
Unlocked-is_locked now none = (λ _. refl, λ _. tt)
Unlocked-is_locked now (some t) = ground arith
