-- ===== src/Auth/Policy.antt =====
-- src/ssas/auth/domain/password_policy.py
use backend_ssas_rrhh.Base.{
  ℕ, ap, ◌≤◌, ◌≡◌, ◌≢◌, refl, All, ◌↔◌, Bool, true, false, not, ◌&&◌, ◌||◌, Option, none, some,
  List, [], ◌∷◌, ◌++◌, any, length, Outcome, ok, err, ltb, leb, arith,
}
use backend_ssas_rrhh.Auth.Text.{
  Text, Letters, text, text_eq, is_lower, is_upper, is_ascii_digit, is_space, strip, before_at,
  is_infix,
}
use backend_ssas_rrhh.Auth.Infix.{text_eq_iff, Occurs, Occurs-is_infix}
use backend_ssas_rrhh.Auth.Quantifiers.{Some, Some-any, All-any}
use backend_ssas_rrhh.Auth.Errors.{
  al_menos_12, maximo_72, minuscula, mayuscula, numero, especial, ningun_espacio, no_comun,
  no_personal, Requirement, AuthError, invalid_password,
}

-- `COMMON_PASSWORDS`
abbrev pub common_passwords : List Text
common_passwords =
    text "123456789012"
    ∷ text "administrador"
    ∷ text "contraseña123"
    ∷ text "password1234"
    ∷ text "qwerty123456"
    ∷ []

-- `[^A-Za-z0-9\s]`
abbrev pub is_special : ℕ → Bool
is_special c = not (is_upper c || is_lower c || is_ascii_digit c || is_space c)

-- One of the personal values is in the password; `None` and the empty text are skipped.
unfoldable pub is_personal : Letters → Text → Option Text → Bool
is_personal l password none = false
is_personal l password (some []) = false
is_personal l password (some (c ∷ s)) =
    let candidate = l.casefold (strip (before_at (c ∷ s))) in
    leb 3 (length candidate) && is_infix candidate (l.casefold password)

-- `if missing: errors.append(r)`
abbrev pub lacks : Bool → Requirement → List Requirement
lacks true r = r ∷ []
lacks false r = []

unfoldable pub policy_errors : Letters → Text → List (Option Text) → List Requirement
policy_errors l password personal_values =
    lacks (ltb (length password) 12) Requirement.al_menos_12
    ++ (lacks (ltb 72 (length password)) Requirement.maximo_72
        ++ (lacks (not (any is_lower password)) Requirement.minuscula
            ++ (lacks (not (any is_upper password)) Requirement.mayuscula
                ++ (lacks (not (any l.is_decimal password)) Requirement.numero
                    ++ (lacks (not (any is_special password)) Requirement.especial
                        ++ (lacks (any is_space password) Requirement.ningun_espacio
                            ++ (lacks (any (text_eq (l.casefold password)) common_passwords)
                                  Requirement.no_comun
                                ++ lacks (any (is_personal l password) personal_values)
                                    Requirement.no_personal)))))))

abbrev pub raise_requirements : Text → List Requirement → Outcome AuthError Text
raise_requirements password [] = ok password
raise_requirements password (r ∷ rs) = err (invalid_password (r ∷ rs))

unfoldable pub validate_password : Letters → Text → List (Option Text) → Outcome AuthError Text
validate_password l password personal_values =
    raise_requirements password (policy_errors l password personal_values)

-- The part of a personal value that a password may not contain.
abbrev pub personal_part : Letters → Text → Text
personal_part l value = l.casefold (strip (before_at value))

-- The personal value is given, its part is not short, and the part stands in the password.
abbrev pub Reveals : Letters → Text → Option Text → Type 0
Reveals l password none = ⊥
Reveals l password (some value) =
    (value ≢ [])
    × (3 ≤ length (personal_part l value))
    × Occurs (personal_part l value) (l.casefold password)

-- What an accepted password is.
pub record IsStrong (l : Letters) (password : Text) (personal_values : List (Option Text))
    : Type 0 where
  pub at_least : 12 ≤ length password
  pub at_most : length password ≤ 72
  pub lower_case : Some (λ (c : ℕ). (97 ≤ c) × (c ≤ 122)) password
  pub upper_case : Some (λ (c : ℕ). (65 ≤ c) × (c ≤ 90)) password
  pub digit : Some (λ (c : ℕ). l.is_decimal c ≡ true) password
  pub special : Some (λ (c : ℕ). is_special c ≡ true) password
  pub no_space : All (λ (c : ℕ). ¬ (is_space c ≡ true)) password
  pub uncommon : All (λ (common : Text). ¬ (l.casefold password ≡ common)) common_passwords
  pub impersonal : All (λ (value : Option Text). ¬ Reveals l password value) personal_values

Reveals-is_personal :
    (l : Letters) (password : Text) (value : Option Text)
    → Reveals l password value ↔ (is_personal l password value ≡ true)
unfolding is_personal
Reveals-is_personal l password none = (λ wrong. absurd wrong, λ e. absurd (ground arith))
Reveals-is_personal l password (some []) =
    (λ (filled, _, _). absurd (filled refl), λ e. absurd (ground arith))
Reveals-is_personal l password (some (c ∷ s)) =
    let part = personal_part l (c ∷ s) in
    let occurs = Occurs-is_infix part (l.casefold password) in
    (
      λ (_, long, there). ground (arith, occurs.0 there),
      λ passed. ((λ e. cc), ground arith, occurs.1 (ground arith)),
    )

not_less : {a b : ℕ} → ltb a b ≡ false → b ≤ a
not_less {a} {b} h = ground arith

of_negated : {b : Bool} → not b ≡ false → b ≡ true
of_negated {b} h = ground arith

nothing_lacks :
    (b : Bool) (r : Requirement) (rest : List Requirement)
    → b ≡ false
    → rest ≡ []
    → lacks b r ++ rest ≡ []
nothing_lacks true r rest e h = cc
nothing_lacks false r rest e h = h

lacks_nothing :
    (b : Bool) (r : Requirement) (rest : List Requirement)
    → lacks b r ++ rest ≡ []
    → (b ≡ false) × (rest ≡ [])
lacks_nothing true r rest h = cc
lacks_nothing false r rest h = (refl, h)

last_lacks : (b : Bool) (r : Requirement) → (lacks b r ≡ []) ↔ (b ≡ false)
last_lacks true r = (λ h. cc, λ h. cc)
last_lacks false r = (λ h. refl, λ h. refl)

no_requirement : (p : Text) (rs : List Requirement) → (raise_requirements p rs ≡ ok p) ↔ (rs ≡ [])
no_requirement p [] = (λ h. refl, λ h. refl)
no_requirement p (r ∷ rs) = (λ h. cc, λ h. cc)

any_lower_iff : (s : Text) → Some (λ (c : ℕ). (97 ≤ c) × (c ≤ 122)) s ↔ (any is_lower s ≡ true)
any_lower_iff = Some-any _ _ (λ c. ground arith)

any_upper_iff : (s : Text) → Some (λ (c : ℕ). (65 ≤ c) × (c ≤ 90)) s ↔ (any is_upper s ≡ true)
any_upper_iff = Some-any _ _ (λ c. ground arith)

itself : (p : ℕ → Bool) (c : ℕ) → (p c ≡ true) ↔ (p c ≡ true)
itself p c = (λ same. same, λ same. same)

policy_errors-nil :
    (l : Letters) (password : Text) (personal_values : List (Option Text))
    → (policy_errors l password personal_values ≡ []) ↔ IsStrong l password personal_values
unfolding policy_errors
policy_errors-nil l p vs = (
  (λ h0.
      let (a, h1) = lacks_nothing _ _ _ h0 in
      let (b, h2) = lacks_nothing _ _ _ h1 in
      let (c, h3) = lacks_nothing _ _ _ h2 in
      let (d, h4) = lacks_nothing _ _ _ h3 in
      let (e, h5) = lacks_nothing _ _ _ h4 in
      let (f, h6) = lacks_nothing _ _ _ h5 in
      let (g, h7) = lacks_nothing _ _ _ h6 in
      let (h, h8) = lacks_nothing _ _ _ h7 in
      record {
        at_least = not_less a;
        at_most = not_less b;
        lower_case = (any_lower_iff p).1 (of_negated c);
        upper_case = (any_upper_iff p).1 (of_negated d);
        digit = (Some-any _ _ (itself _) p).1 (of_negated e);
        special = (Some-any _ _ (itself _) p).1 (of_negated f);
        no_space = (All-any _ _ (itself _) p).1 g;
        uncommon = (All-any _ _ (text_eq_iff (l.casefold p)) common_passwords).1 h;
        impersonal = (All-any _ _ (Reveals-is_personal l p) vs).1 ((last_lacks _ _).0 h8);
      }),
  (λ s. nothing_lacks (ltb (length p) 12) al_menos_12 _ (ground (arith, s.at_least)) (
      nothing_lacks (ltb 72 (length p)) maximo_72 _ (ground (arith, s.at_most)) (
        nothing_lacks _ minuscula _ (ap not ((any_lower_iff p).0 s.lower_case)) (
          nothing_lacks _ mayuscula _ (ap not ((any_upper_iff p).0 s.upper_case)) (
            nothing_lacks _ numero _ (ap not ((Some-any _ _ (itself _) p).0 s.digit)) (
              nothing_lacks _ especial _ (ap not ((Some-any _ _ (itself _) p).0 s.special)) (
                nothing_lacks _ ningun_espacio _ ((All-any _ _ (itself _) p).0 s.no_space) (
                  nothing_lacks _ no_comun _
                    ((All-any _ _ (text_eq_iff (l.casefold p)) common_passwords).0 s.uncommon)
                    ((last_lacks _ no_personal).1
                      ((All-any _ _ (Reveals-is_personal l p) vs).0 s.impersonal)))))))))),
)

-- A password is returned as it is exactly when it has 12 to 72 characters, a lower-case and an
-- upper-case letter, a digit, a special character, no white space, is not a common password and does
-- not contain the part before the `@`, of three or more characters, of a personal value, cases folded;
-- for any tables of letters and digits of Python.
pub validate_password_iff :
    (l : Letters) (password : Text) (personal_values : List (Option Text))
    → (validate_password l password personal_values ≡ ok password)
      ↔ IsStrong l password personal_values
unfolding validate_password
validate_password_iff l p vs =
    let made = no_requirement p (policy_errors l p vs) in
    let strong = policy_errors-nil l p vs in
    ((λ h. strong.0 (made.0 h)), (λ s. made.1 (strong.1 s)))
