-- ===== src/Reclutamiento/Unicas.antt =====
-- One application for each person and vacancy.
use backend_ssas_rrhh.Base.{
  ℕ, ◌≡◌, ◌≤◌, refl, inl, inr, false, List, any, add_row, arith, Bool-cases,
}
use mathlib.Core.Path.{subst}
use backend_ssas_rrhh.Reclutamiento.Rows.{Postulacion, ReclutamientoDb}
use backend_ssas_rrhh.Reclutamiento.Lookup.{count}
use backend_ssas_rrhh.Reclutamiento.Contratacion.{postulacion_key, is_de, with_empleado}
use backend_ssas_rrhh.Reclutamiento.Vacantes.{crear, actualizar, eliminar, check_references}
use backend_ssas_rrhh.Reclutamiento.Publicacion.{publicar, reanudar, pausar, cerrar}
use backend_ssas_rrhh.Reclutamiento.Keys.{count-update_key, count-add_row, count-none}
use backend_ssas_rrhh.Reclutamiento.Requests.{
  ApplicationStep, VacancyStep, Step, Run, hired, pooled, associated, applied, staged, rejected,
  scored, evaluated, corrected, created, updated, deleted, published, resumed, paused, closed,
  interview, application, vacancy, stay, then_step,
}
use backend_ssas_rrhh.Reclutamiento.Cupos.Applications.{
  Unhired, untouched, added, changed, banco-Unhired, asociar-Unhired,
  crear_postulacion_publica-Unhired,
}
use backend_ssas_rrhh.Reclutamiento.Cupos.Stages.{
  cambiar_etapa-Unhired, rechazar-Unhired, registrar_puntaje-Unhired, crear_evaluacion-Unhired,
  editar_evaluacion-Unhired,
}
use backend_ssas_rrhh.Reclutamiento.Cupos.Hiring.{contratar-Hire}
use backend_ssas_rrhh.Reclutamiento.Cupos.Runs.{InterviewStep-Untouched}

-- No person has two applications for one vacancy.
unfoldable pub AllSingle : List Postulacion → Type 0
AllSingle ps = (vacante_id postulante_id : ℕ) → count (is_de vacante_id postulante_id) ps ≤ 1

add_row-AllSingle :
    (p : Postulacion) (ps : List Postulacion)
    → any (is_de p.vacante_id p.postulante_id) ps ≡ false
    → AllSingle ps
    → AllSingle (add_row p ps)
unfolding AllSingle
add_row-AllSingle p ps fresh single v c = elim (Bool-cases (is_de v c p)) [
  | inr other ↦
      let before = single v c in let counted = count-add_row (is_de v c) p ps in ground arith
  | inl same ↦
      let same_v : p.vacante_id ≡ v = ground arith in
      let same_c : p.postulante_id ≡ c = ground arith in
      let none_yet = count-none (is_de p.vacante_id p.postulante_id) ps fresh in
      let none_here : count (is_de v c) ps ≡ 0 =
        subst (λ j. count (is_de v j) ps ≡ 0) same_c
          (subst (λ i. count (is_de i p.postulante_id) ps ≡ 0) same_v none_yet) in
      let counted = count-add_row (is_de v c) p ps in ground arith
]

module _ (db db' : ReclutamientoDb) (single : AllSingle db.postulaciones) where
  Unhired-AllSingle : Unhired db db' → AllSingle db'.postulaciones
  unfolding AllSingle
  Unhired-AllSingle (untouched rows posts) w k = rw posts (single w k)
  Unhired-AllSingle (added p fresh only rows posts) w k =
      rw posts (add_row-AllSingle p db.postulaciones only single w k)
  Unhired-AllSingle (changed i f p found vacancy_kept applicant state rows posts) w k =
      rw
        (
          posts,
          count-update_key postulacion_key i f (is_de w k) db.postulaciones found
              (rw (vacancy_kept p, applicant p) refl),
        )
        (single w k)

  ApplicationStep-AllSingle : ApplicationStep db db' → AllSingle db'.postulaciones
  unfolding AllSingle
  ApplicationStep-AllSingle (hired l cf e n new_id i x row _ h) w k =
      elim (contratar-Hire l cf e n new_id i x row db db' h) [
        | inl same ↦ rw same (single w k)
        | inr (post, vac, made) ↦
            rw
              (
                made.posts,
                count-update_key postulacion_key i (with_empleado row.id made.etapa_id n)
                    (is_de w k) db.postulaciones made.application refl,
              )
              (single w k)
      ]
  ApplicationStep-AllSingle (pooled e i b row _ h) w k =
      Unhired-AllSingle (banco-Unhired e i b row db db' h) w k
  ApplicationStep-AllSingle (associated e n new_id c i v row _ h) w k =
      Unhired-AllSingle (asociar-Unhired e n new_id c i v row db db' h) w k
  ApplicationStep-AllSingle (applied l s save env x cv row _ fresh h) w k =
      Unhired-AllSingle (crear_postulacion_publica-Unhired l s save env x cv row db db' fresh h) w k
  ApplicationStep-AllSingle (staged u e n i etapa row _ h) w k =
      Unhired-AllSingle (cambiar_etapa-Unhired u e n i etapa row db db' h) w k
  ApplicationStep-AllSingle (rejected u e n i motivo row _ h) w k =
      Unhired-AllSingle (rechazar-Unhired u e n i motivo row db db' h) w k
  ApplicationStep-AllSingle (scored u e n i p row _ h) w k =
      Unhired-AllSingle (registrar_puntaje-Unhired u e n i p row db db' h) w k
  ApplicationStep-AllSingle (evaluated c u e new_id i x row _ h) w k =
      Unhired-AllSingle (crear_evaluacion-Unhired c u e new_id i x row db db' h) w k
  ApplicationStep-AllSingle (corrected u e i x row _ h) w k =
      Unhired-AllSingle (editar_evaluacion-Unhired u e i x row db db' h) w k

VacancyStep-posts :
    (db db' : ReclutamientoDb) → VacancyStep db db' → db'.postulaciones ≡ db.postulaciones
unfolding crear actualizar eliminar check_references publicar reanudar pausar cerrar
VacancyStep-posts db db' (created e r i x row _ place fresh h) = ground arith
VacancyStep-posts db db' (updated i e x row _ positive h) = ground arith
VacancyStep-posts db db' (deleted i e _ h) = ground arith
VacancyStep-posts db db' (published n i e row _ h) = ground arith
VacancyStep-posts db db' (resumed n i e row _ h) = ground arith
VacancyStep-posts db db' (paused i e row _ h) = ground arith
VacancyStep-posts db db' (closed i e row _ h) = ground arith

Step-AllSingle :
    (db db' : ReclutamientoDb)
    → AllSingle db.postulaciones
    → Step db db'
    → AllSingle db'.postulaciones
Step-AllSingle db db' single (interview s) =
    let u = InterviewStep-Untouched db db' s in rw u.posts single
Step-AllSingle db db' single (application s) = ApplicationStep-AllSingle db db' single s
Step-AllSingle db db' single (vacancy s) = rw (VacancyStep-posts db db' s) single

-- Whatever requests are made, through the portal, from the talent pool or on the board, no person comes
-- to have two applications for one vacancy, where nobody had at the start.
pub Run-AllSingle :
    (db db' : ReclutamientoDb)
    → AllSingle db.postulaciones
    → Run db db'
    → AllSingle db'.postulaciones
Run-AllSingle db _ single (stay _) = single
Run-AllSingle db db' single (then_step _ mid _ one more) =
    Run-AllSingle mid db' (Step-AllSingle db mid single one) more
