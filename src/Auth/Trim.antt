-- ===== src/Auth/Trim.antt =====
-- Stripping a text: what is stripped has no white space around it.
use backend_ssas_rrhh.Base.{
  ◌≡◌, refl, sym, ap, ◌∙◌, Bool, true, not, inl, inr, Bool-cases, [], ◌∷◌, ◌++◌, arith,
}
use mathlib.Core.List.{reverse, reverse-append, reverse-reverse}
use backend_ssas_rrhh.Auth.Text.{Text, is_space, lstrip, strip}

-- The text does not begin with white space.
abbrev starts_plain : Text → Bool
starts_plain [] = true
starts_plain (c ∷ s) = not (is_space c)

lstrip-starts_plain : (s : Text) → starts_plain (lstrip s) ≡ true
unfolding lstrip
lstrip-starts_plain [] = refl
lstrip-starts_plain (c ∷ s) = ground (arith, lstrip-starts_plain s)

lstrip_plain : (s : Text) → starts_plain s ≡ true → lstrip s ≡ s
unfolding lstrip
lstrip_plain [] plain = refl
lstrip_plain (c ∷ s) plain = ground arith

starts_plain-prefix : (s t : Text) → starts_plain (s ++ t) ≡ true → starts_plain s ≡ true
starts_plain-prefix [] t plain = refl
starts_plain-prefix (c ∷ s) t plain = plain

-- What `lstrip` takes away.
leading : (s : Text) → (w : Text) × (s ≡ w ++ lstrip s)
unfolding lstrip
leading [] = ([], refl)
leading (c ∷ s) =
    let (w, split) = leading s in
    elim (Bool-cases (is_space c)) [
      | inl space ↦ (c ∷ w, rw space (ap (λ t. c ∷ t) split))
      | inr plain ↦ ([], rw plain refl)
    ]

-- What is left once both ends are stripped does not begin with white space.
strip-starts_plain : (s : Text) → starts_plain (strip s) ≡ true
unfolding strip
strip-starts_plain s =
    let (w, split) = leading (reverse (lstrip s)) in
    let kept = lstrip (reverse (lstrip s)) in
    let apart : lstrip s ≡ reverse kept ++ reverse w =
      sym (reverse-reverse (lstrip s)) ∙ ap reverse split ∙ reverse-append w kept in
    starts_plain-prefix (reverse kept) (reverse w)
      (ap starts_plain (sym apart) ∙ lstrip-starts_plain s)

strip-fixed :
    (kept : Text)
    → starts_plain (reverse kept) ≡ true
    → starts_plain kept ≡ true
    → strip (reverse kept) ≡ reverse kept
unfolding strip
strip-fixed kept first last =
    rw (lstrip_plain (reverse kept) first, reverse-reverse kept, lstrip_plain kept last) refl

-- Stripping a text again leaves it as it is.
pub strip-strip : (s : Text) → strip (strip s) ≡ strip s
unfolding strip
strip-strip s =
    let kept = lstrip (reverse (lstrip s)) in
    strip-fixed kept (strip-starts_plain s) (lstrip-starts_plain (reverse (lstrip s)))
