-- ===== src/Reclutamiento/Cupos/Runs.antt =====
-- The places of the vacancies over any sequence of requests.
use backend_ssas_rrhh.Base.{◌≡◌, inl, inr, arith}
use backend_ssas_rrhh.Reclutamiento.Rows.{ReclutamientoDb}
use backend_ssas_rrhh.Reclutamiento.Entrevistas.{crear_entrevista, editar_entrevista}
use backend_ssas_rrhh.Reclutamiento.Transiciones.{
  estado_entrevista, resultado_entrevista, confirmar_entrevista,
}
use backend_ssas_rrhh.Reclutamiento.Requests.{
  InterviewStep, ApplicationStep, VacancyStep, Step, Run, programmed, reprogrammed, moved, held,
  confirmed, hired, pooled, associated, applied, staged, rejected, scored, evaluated, corrected,
  created, updated, deleted, published, resumed, paused, closed, interview, application, vacancy,
  stay, then_step,
}
use backend_ssas_rrhh.Reclutamiento.Cupos.{AllCovered, AllCovered-same_hires}
use backend_ssas_rrhh.Reclutamiento.Cupos.Vacancies.{
  Change-AllCovered, publicar-Change, reanudar-Change, pausar-Change, cerrar-Change,
  actualizar-Change, crear-AllCovered, eliminar-AllCovered,
}
use backend_ssas_rrhh.Reclutamiento.Cupos.Applications.{
  Unhired, Unhired-vacancies, Unhired-hires, banco-Unhired, asociar-Unhired,
  crear_postulacion_publica-Unhired,
}
use backend_ssas_rrhh.Reclutamiento.Cupos.Stages.{
  cambiar_etapa-Unhired, rechazar-Unhired, registrar_puntaje-Unhired, crear_evaluacion-Unhired,
  editar_evaluacion-Unhired,
}
use backend_ssas_rrhh.Reclutamiento.Cupos.Hiring.{contratar-Hire, Hire-AllCovered}

-- No request about interviews touches a vacancy or an application.
pub record Untouched (db db' : ReclutamientoDb) : Type 0 where
  pub vacancies : db'.vacantes ≡ db.vacantes
  pub posts : db'.postulaciones ≡ db.postulaciones

pub InterviewStep-Untouched : (db db' : ReclutamientoDb) → InterviewStep db db' → Untouched db db'
unfolding crear_entrevista editar_entrevista estado_entrevista resultado_entrevista
    confirmar_entrevista
InterviewStep-Untouched db db' (programmed c e n i x row _ long fresh h) = record {
  vacancies = ground arith;
  posts = ground arith;
}
InterviewStep-Untouched db db' (reprogrammed c e n i x row _ long h) = record {
  vacancies = ground arith;
  posts = ground arith;
}
InterviewStep-Untouched db db' (moved e i s row _ h) = record {
  vacancies = ground arith;
  posts = ground arith;
}
InterviewStep-Untouched db db' (held e n i x row _ h) = record {
  vacancies = ground arith;
  posts = ground arith;
}
InterviewStep-Untouched db db' (confirmed n c i row _ h) = record {
  vacancies = ground arith;
  posts = ground arith;
}

module _ (db db' : ReclutamientoDb) (covered : AllCovered db.vacantes db.postulaciones) where
  unhired : Unhired db db' → AllCovered db'.vacantes db'.postulaciones
  unhired u = rw (Unhired-vacancies db db' u) (
      AllCovered-same_hires db.vacantes db.postulaciones db'.postulaciones
        (λ id. Unhired-hires db db' id u) covered)

  ApplicationStep-AllCovered : ApplicationStep db db' → AllCovered db'.vacantes db'.postulaciones
  ApplicationStep-AllCovered (hired l c e n new_id i x row _ h) =
      elim (contratar-Hire l c e n new_id i x row db db' h) [
        | inl same ↦ rw same covered
        | inr (post, v, made) ↦ Hire-AllCovered n i post v row db db' made covered
      ]
  ApplicationStep-AllCovered (pooled e i b row _ h) = unhired (banco-Unhired e i b row db db' h)
  ApplicationStep-AllCovered (associated e n new_id c i v row _ h) =
      unhired (asociar-Unhired e n new_id c i v row db db' h)
  ApplicationStep-AllCovered (applied l s save env x cv row _ fresh h) =
      unhired (crear_postulacion_publica-Unhired l s save env x cv row db db' fresh h)
  ApplicationStep-AllCovered (staged u e n i etapa row _ h) =
      unhired (cambiar_etapa-Unhired u e n i etapa row db db' h)
  ApplicationStep-AllCovered (rejected u e n i motivo row _ h) =
      unhired (rechazar-Unhired u e n i motivo row db db' h)
  ApplicationStep-AllCovered (scored u e n i p row _ h) =
      unhired (registrar_puntaje-Unhired u e n i p row db db' h)
  ApplicationStep-AllCovered (evaluated c u e new_id i x row _ h) =
      unhired (crear_evaluacion-Unhired c u e new_id i x row db db' h)
  ApplicationStep-AllCovered (corrected u e i x row _ h) =
      unhired (editar_evaluacion-Unhired u e i x row db db' h)

  VacancyStep-AllCovered : VacancyStep db db' → AllCovered db'.vacantes db'.postulaciones
  VacancyStep-AllCovered (created e r i x row _ place fresh h) =
      crear-AllCovered e r i x row db db' place fresh h covered
  VacancyStep-AllCovered (updated i e x row _ positive h) =
      Change-AllCovered db db' (actualizar-Change i e x row db db' positive h) covered
  VacancyStep-AllCovered (deleted i e _ h) = eliminar-AllCovered i e db db' h covered
  VacancyStep-AllCovered (published n i e row _ h) =
      Change-AllCovered db db' (publicar-Change n i e row db db' h) covered
  VacancyStep-AllCovered (resumed n i e row _ h) =
      Change-AllCovered db db' (reanudar-Change n i e row db db' h) covered
  VacancyStep-AllCovered (paused i e row _ h) =
      Change-AllCovered db db' (pausar-Change i e row db db' h) covered
  VacancyStep-AllCovered (closed i e row _ h) =
      Change-AllCovered db db' (cerrar-Change i e row db db' h) covered

  Step-AllCovered : Step db db' → AllCovered db'.vacantes db'.postulaciones
  Step-AllCovered (interview s) =
      let u = InterviewStep-Untouched db db' s in rw (u.vacancies, u.posts) covered
  Step-AllCovered (application s) = ApplicationStep-AllCovered s
  Step-AllCovered (vacancy s) = VacancyStep-AllCovered s

-- Whatever requests about vacancies, applications and interviews are made, in any order, where every
-- vacancy is covered at the start it is so at the end: the people hired are no more than its places,
-- a vacancy that is not closed has a place left, and nobody is hired for a draft.
pub Run-AllCovered :
    (db db' : ReclutamientoDb)
    → AllCovered db.vacantes db.postulaciones
    → Run db db'
    → AllCovered db'.vacantes db'.postulaciones
Run-AllCovered db _ covered (stay _) = covered
Run-AllCovered db db' covered (then_step _ mid _ one more) =
    Run-AllCovered mid db' (Step-AllCovered db mid covered one) more
