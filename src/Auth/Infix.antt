-- ===== src/Auth/Infix.antt =====
-- Equal texts, and a text that occurs in another one: `s in t` as the two parts around it.
use backend_ssas_rrhh.Base.{◌≡◌, refl, ap, ◌↔◌, inl, inr, true, [], ◌∷◌, ◌++◌, Bool-cases, arith}
use backend_ssas_rrhh.Auth.Text.{Text, text_eq, is_prefix, is_infix}

pub text_eq_iff : (s t : Text) → (s ≡ t) ↔ (text_eq s t ≡ true)
text_eq_iff [] [] = (λ e. refl, λ e. refl)
text_eq_iff [] (b ∷ t) = (λ e. cc, λ e. cc)
text_eq_iff (a ∷ s) [] = (λ e. cc, λ e. cc)
text_eq_iff (a ∷ s) (b ∷ t) =
    let (there, back) = text_eq_iff s t in (λ e. ground (arith, there), λ e. ground (arith, back))

-- The text stands in `t`, between two others.
abbrev pub Occurs : Text → Text → Type 0
Occurs s t = (before after : Text) × (t ≡ before ++ (s ++ after))

is_prefix-rest : (s t : Text) → is_prefix s t ≡ true → (after : Text) × (t ≡ s ++ after)
is_prefix-rest [] t passed = (t, refl)
is_prefix-rest (a ∷ s) [] passed = absurd (ground arith)
is_prefix-rest (a ∷ s) (b ∷ t) passed =
    let (after, split) = is_prefix-rest s t (ground arith) in
    let same : a ≡ b = ground arith in (after, cc)

is_prefix-append : (s after : Text) → is_prefix s (s ++ after) ≡ true
is_prefix-append [] after = refl
is_prefix-append (a ∷ s) after = ground (arith, is_prefix-append s after)

is_infix-Occurs : (s t : Text) → is_infix s t ≡ true → Occurs s t
unfolding is_infix
is_infix-Occurs s [] passed = let (after, split) = is_prefix-rest s [] passed in ([], after, split)
is_infix-Occurs s (c ∷ t) passed = elim (Bool-cases (is_prefix s (c ∷ t))) [
  | inl here ↦ let (after, split) = is_prefix-rest s (c ∷ t) here in ([], after, split)
  | inr elsewhere ↦
      let (before, after, split) = is_infix-Occurs s t (ground arith) in
      (c ∷ before, after, ap (λ r. c ∷ r) split)
]

is_infix-prefix : (s t : Text) → is_prefix s t ≡ true → is_infix s t ≡ true
unfolding is_infix
is_infix-prefix s [] passed = passed
is_infix-prefix s (c ∷ t) passed = rw passed refl

is_infix-append : (before s after : Text) → is_infix s (before ++ (s ++ after)) ≡ true
unfolding is_infix
is_infix-append [] s after = is_infix-prefix s (s ++ after) (is_prefix-append s after)
is_infix-append (c ∷ before) s after = ground (arith, is_infix-append before s after)

pub Occurs-is_infix : (s t : Text) → Occurs s t ↔ (is_infix s t ≡ true)
Occurs-is_infix s t =
    (λ (before, after, split). rw split (is_infix-append before s after), is_infix-Occurs s t)
