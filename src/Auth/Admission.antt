-- ===== src/Auth/Admission.antt =====
-- Who gets in by a login (`LoginUser`).
use mathlib.Core.Path.{subst}
use mathlib.Core.Option.{some-injective}
use backend_ssas_rrhh.Base.{
  ℕ, ap, ◌∙◌, sym, ◌≡◌, ◌≢◌, refl, [], ◌∷◌, none, find_first, ◌↔◌, inl, inr, true, false, some,
  Option-cases, ok, arith,
}
use backend_ssas_rrhh.Auth.Text.{Text, strip}
use backend_ssas_rrhh.Auth.Store.{UserRow, User, Db, to_entity, entity_of, login_row, get_by_login}
use backend_ssas_rrhh.Auth.Quantifiers.{First, First-find}
use backend_ssas_rrhh.Auth.Account.{Answers, Answers-login_row}
use backend_ssas_rrhh.Auth.Jwt.{Crypto, Settings}
use backend_ssas_rrhh.Auth.UseCases.{Credentials, authenticate, first_text, no_text}
use backend_ssas_rrhh.Auth.Usable.{
  Usable, MayEnter, active_roles-is_empty, OfActive-empresa_active, Unlocked-is_locked,
}

-- The text that a login is looked up by.
abbrev pub login_of : Credentials → Text
login_of q = strip (first_text q.email q.username)

some_text : (t : Text) → (t ≢ []) ↔ (no_text t ≡ false)
some_text [] = (λ wrong. absurd (wrong refl), λ e. cc)
some_text (a ∷ t) = (λ _. refl, λ _ e. cc)

nothing_found : {u : User} → none ≡ some u → ⊥
nothing_found e = cc

-- The login names the user, and the password is the user's.
record Proves (c : Crypto) (q : Credentials) (db : Db) (u : User) : Type 0 where
  some_login : no_text (login_of q) ≡ false
  named : get_by_login c.letters db (login_of q) q.empresa_slug ≡ some u
  password : c.verify q.password u.hashed_password ≡ true

module _ (c : Crypto) (s : Settings) (now : ℕ) (q : Credentials) (db : Db) where
  authenticate-Proves :
      (u : User) → authenticate c s now q db ≡ ok u → Proves c q db u × Usable now u
  unfolding authenticate
  authenticate-Proves u = ground arith

  authenticate-ok : (u : User) → Proves c q db u → Usable now u → authenticate c s now q db ≡ ok u
  unfolding authenticate
  authenticate-ok u p v =
      rw
        (p.some_login, p.named, v.unlocked, p.password, v.active, v.has_role, v.company, v.verified)
        refl

  Usable-MayEnter :
      (row : UserRow)
      → c.verify q.password row.hashed_password ≡ true
      → Usable now (to_entity db.empresas row)
      → MayEnter c now q.password db.empresas row
  unfolding to_entity
  Usable-MayEnter row right v = record {
    right_password = right;
    active = v.active;
    has_role = (active_roles-is_empty row.roles).1 v.has_role;
    company = (OfActive-empresa_active db.empresas row.empresa_id).1 v.company;
    verified = v.verified;
    unlocked = (Unlocked-is_locked now row.bloqueado_hasta).1 v.unlocked;
  }

  MayEnter-Usable :
      (row : UserRow)
      → MayEnter c now q.password db.empresas row
      → Usable now (to_entity db.empresas row)
  unfolding to_entity
  MayEnter-Usable row m = record {
    active = m.active;
    has_role = (active_roles-is_empty row.roles).0 m.has_role;
    company = (OfActive-empresa_active db.empresas row.empresa_id).0 m.company;
    verified = m.verified;
    unlocked = (Unlocked-is_locked now row.bloqueado_hasta).0 m.unlocked;
  }

  -- The first row of the table that a login answers to.
  abbrev LoginFirst : (UserRow → Type 0) → Type 0
  LoginFirst Q = First (Answers c.letters db.empresas q.empresa_slug (login_of q)) Q db.users

  module _ (u : User) where
    abbrev Enters : UserRow → Type 0
    Enters row = MayEnter c now q.password db.empresas row × (to_entity db.empresas row ≡ u)

    LoginFirst-row : LoginFirst Enters ↔ (
        (row : UserRow) × (find_first
            (login_row c.letters db.empresas q.empresa_slug (login_of q))
            db.users
          ≡ some row)
        × Enters row)
    LoginFirst-row =
        First-find _ _ _ (Answers-login_row c.letters db.empresas q.empresa_slug (login_of q))
          db.users

    Proves-Enters :
        Proves c q db u
        → Usable now u
        → (row : UserRow) × (find_first
              (login_row c.letters db.empresas q.empresa_slug (login_of q))
              db.users
            ≡ some row)
          × Enters row
    unfolding get_by_login to_entity
    Proves-Enters p v =
        elim (Option-cases
          (find_first (login_row c.letters db.empresas q.empresa_slug (login_of q)) db.users)) [
            | inl absent ↦
                absurd (nothing_found (sym (ap (entity_of db.empresas) absent) ∙ p.named))
            | inr (row, there) ↦
                let same : to_entity db.empresas row ≡ u =
                  some-injective _ _ (sym (ap (entity_of db.empresas) there) ∙ p.named) in
                let right =
                  subst (λ x. c.verify q.password x.hashed_password ≡ true) (sym same) p.password in
                let usable = subst (Usable now) (sym same) v in
                (row, there, (Usable-MayEnter row right usable, same))
          ]

    Enters-authenticate :
        (row : UserRow)
        → no_text (login_of q) ≡ false
        → find_first (login_row c.letters db.empresas q.empresa_slug (login_of q)) db.users
          ≡ some row
        → Enters row
        → authenticate c s now q db ≡ ok u
    unfolding get_by_login to_entity
    Enters-authenticate row some_login there (m, same) =
        authenticate-ok (to_entity db.empresas row)
          (record {
            some_login = some_login;
            named = ap (entity_of db.empresas) there;
            password = m.right_password;
          })
          (MayEnter-Usable row m)
        ∙ ap ok same

    -- A login passes with a user exactly when its text is not only white space and the first row that
    -- answers to it, an account that is not deleted, of the platform or of the active company that is
    -- named, with that e-mail or user name, has the password, is active, has an active role, belongs to
    -- no company or an active one, has a verified e-mail and no lock that still runs; the user is made of
    -- that row.
    pub authenticate_iff : (authenticate c s now q db ≡ ok u) ↔ (
        (login_of q ≢ [])
        × First
            (Answers c.letters db.empresas q.empresa_slug (login_of q))
            (λ row. MayEnter c now q.password db.empresas row × (to_entity db.empresas row ≡ u))
            db.users)
    authenticate_iff = (
      λ passed.
          let (p, v) = authenticate-Proves u passed in
          ((some_text (login_of q)).1 p.some_login, LoginFirst-row.1 (Proves-Enters p v)),
      λ (filled, first).
          let (row, there, enters) = LoginFirst-row.0 first in
          Enters-authenticate row ((some_text (login_of q)).0 filled) there enters,
    )
