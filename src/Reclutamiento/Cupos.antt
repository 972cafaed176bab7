-- ===== src/Reclutamiento/Cupos.antt =====
-- The places of a vacancy: no request hires more people than a vacancy has places.
pub mod Vacancies
pub mod Applications
pub mod Stages
pub mod Hiring
pub mod Runs
pub mod Refinement
pub mod Again
use backend_ssas_rrhh.Base.{
  ℕ, ◌+◌, ◌≡◌, ◌≤◌, ◌<◌, refl, ◌⊎◌, inl, inr, Bool, true, false, Option, none, some, List, ◌==◌,
  find_first, add_row, where_rows, not, ok, arith, Option-cases, Outcome-cases, Bool-cases,
  find_first-passes, sym, ==_iff,
}
use mathlib.Core.Path.{subst}
use backend_ssas_rrhh.Reclutamiento.Rows.{
  Vacante, Postulacion, ReclutamientoDb, is_borrador, is_cerrada,
}
use backend_ssas_rrhh.Reclutamiento.Lookup.{count, update_key}
use backend_ssas_rrhh.Reclutamiento.Contratacion.{vacante_key, hired_for}
use backend_ssas_rrhh.Reclutamiento.Keys.{
  find_first-or_new, delete_all, delete_others, applied?, find_first-update_key,
  find_first-update_key_other, count-update_key,
}

-- The people hired for a vacancy fit in its places; there are places left until it is closed, and
-- nobody is hired for a draft.
pub record Covered (v : Vacante) (hired : ℕ) : Type 0 where
  pub place : 1 ≤ v.cantidad_vacantes
  pub within : hired ≤ v.cantidad_vacantes
  pub free : (hired < v.cantidad_vacantes) ⊎ (is_cerrada v.estado ≡ true)
  pub draft : (is_borrador v.estado ≡ false) ⊎ (hired ≡ 0)

abbrev pub CoveredRow : Option Vacante → ℕ → Type 0
CoveredRow none hired = Unit
CoveredRow (some v) hired = Covered v hired

abbrev pub vacancy_of : ℕ → List Vacante → Option Vacante
vacancy_of id rows = find_first (λ v. vacante_key v == id) rows

abbrev pub hires : ℕ → List Postulacion → ℕ
hires id posts = count (hired_for id) posts

-- Every vacancy is covered by the applications for it.
unfoldable pub AllCovered : List Vacante → List Postulacion → Type 0
AllCovered vs ps = (id : ℕ) → CoveredRow (vacancy_of id vs) (hires id ps)

-- One vacancy changes, and is covered in its new form.
pub AllCovered-update_key :
    (i : ℕ) (f : Vacante → Vacante) (vs : List Vacante) (ps : List Postulacion)
    → ((v : Vacante) → vacante_key (f v) ≡ vacante_key v)
    → AllCovered vs ps
    → CoveredRow (applied? f (vacancy_of i vs)) (hires i ps)
    → AllCovered (update_key vacante_key i f vs) ps
unfolding AllCovered
AllCovered-update_key i f vs ps kept covered new id = elim (Bool-cases (i == id)) [
  | inl same ↦
      let same_id : i ≡ id = grind (arith, ==_iff i id) in
      rw (sym same_id, find_first-update_key vacante_key i f kept vs) new
  | inr apart ↦ rw (find_first-update_key_other vacante_key i f kept id vs apart) (covered id)
]

-- A new vacancy, for which nobody is hired.
pub AllCovered-add_row :
    (v : Vacante) (vs : List Vacante) (ps : List Postulacion)
    → 1 ≤ v.cantidad_vacantes
    → hires v.id ps ≡ 0
    → AllCovered vs ps
    → AllCovered (add_row v vs) ps
unfolding AllCovered
AllCovered-add_row v vs ps place nobody covered id =
    rw (find_first-or_new (λ w. vacante_key w == id) v vs) (elim (Option-cases (vacancy_of id vs)) [
      | inr (w, found) ↦ rw found (subst (λ o. CoveredRow o (hires id ps)) found (covered id))
      | inl missing ↦ elim (Bool-cases (v.id == id)) [
        | inl same ↦
            let same_id : v.id ≡ id = grind (arith, ==_iff v.id id) in
            let none_hired : hires id ps ≡ 0 = rw (sym same_id) nobody in
            let new : Covered v (hires id ps) = record {
              place = place;
              within = ground arith;
              free = ground arith;
              draft = inr none_hired;
            } in
            rw (missing, same) new
        | inr apart ↦ rw (missing, apart) tt
      ]
    ])

pub AllCovered-delete :
    (i : ℕ) (vs : List Vacante) (ps : List Postulacion)
    → AllCovered vs ps
    → AllCovered (where_rows (λ (v : Vacante). not (v.id == i)) vs) ps
unfolding AllCovered
AllCovered-delete i vs ps covered id = elim (Bool-cases (i == id)) [
  | inl same ↦
      let same_id : i ≡ id = grind (arith, ==_iff i id) in
      rw (sym same_id, delete_all vacante_key i vs) tt
  | inr apart ↦ rw (delete_others vacante_key i id vs apart) (covered id)
]

-- Applications that change without anyone hired.
pub AllCovered-same_hires :
    (vs : List Vacante) (ps ps' : List Postulacion)
    → ((id : ℕ) → hires id ps' ≡ hires id ps)
    → AllCovered vs ps
    → AllCovered vs ps'
unfolding AllCovered
AllCovered-same_hires vs ps ps' same covered id = rw (same id) (covered id)
