-- ===== src/Reclutamiento/Agenda/Runs.antt =====
-- The interviews over any sequence of requests.
use backend_ssas_rrhh.Base.{◌≡◌, arith}
use backend_ssas_rrhh.Reclutamiento.Rows.{ReclutamientoDb}
use backend_ssas_rrhh.Reclutamiento.Evaluaciones.{
  crear_evaluacion, editar_evaluacion, guardar_evaluacion,
}
use backend_ssas_rrhh.Reclutamiento.Contratacion.{
  contratar, nueva_contratacion, ya_contratada, banco, asociar,
}
use backend_ssas_rrhh.Reclutamiento.Tablero.{cambiar_etapa, rechazar, registrar_puntaje}
use backend_ssas_rrhh.Reclutamiento.Publica.{crear_postulacion_publica}
use backend_ssas_rrhh.Reclutamiento.Vacantes.{crear, actualizar, eliminar, check_references}
use backend_ssas_rrhh.Reclutamiento.Publicacion.{publicar, reanudar, pausar, cerrar}
use backend_ssas_rrhh.Reclutamiento.Requests.{
  InterviewStep, ApplicationStep, VacancyStep, Step, Run, programmed, reprogrammed, moved, held,
  confirmed, hired, pooled, associated, applied, staged, rejected, scored, evaluated, corrected,
  created, updated, deleted, published, resumed, paused, closed, interview, application, vacancy,
  stay, then_step,
}
use backend_ssas_rrhh.Reclutamiento.Agenda.{NoClash}
use backend_ssas_rrhh.Reclutamiento.Agenda.Edits.{
  Settled-NoClash, estado_entrevista-Settled, resultado_entrevista-Settled,
  confirmar_entrevista-Settled,
}
use backend_ssas_rrhh.Reclutamiento.Agenda.Bookings.{
  editar_entrevista-Edited, Edited-NoClash, crear_entrevista-NoClash,
}

pub ApplicationStep-interviews :
    (db db' : ReclutamientoDb) → ApplicationStep db db' → db'.entrevistas ≡ db.entrevistas
unfolding contratar nueva_contratacion ya_contratada banco asociar crear_postulacion_publica
    cambiar_etapa rechazar registrar_puntaje crear_evaluacion editar_evaluacion guardar_evaluacion
ApplicationStep-interviews db db' (hired l c e n new_id i x row _ h) = ground arith
ApplicationStep-interviews db db' (pooled e i b row _ h) = ground arith
ApplicationStep-interviews db db' (associated e n new_id c i v row _ h) = ground arith
ApplicationStep-interviews db db' (applied l s save env x cv row _ fresh h) = ground arith
ApplicationStep-interviews db db' (staged u e n i etapa row _ h) = ground arith
ApplicationStep-interviews db db' (rejected u e n i motivo row _ h) = ground arith
ApplicationStep-interviews db db' (scored u e n i p row _ h) = ground arith
ApplicationStep-interviews db db' (evaluated c u e new_id i x row _ h) = ground arith
ApplicationStep-interviews db db' (corrected u e i x row _ h) = ground arith

pub VacancyStep-interviews :
    (db db' : ReclutamientoDb) → VacancyStep db db' → db'.entrevistas ≡ db.entrevistas
unfolding crear actualizar eliminar check_references publicar reanudar pausar cerrar
VacancyStep-interviews db db' (created e r i x row _ place fresh h) = ground arith
VacancyStep-interviews db db' (updated i e x row _ positive h) = ground arith
VacancyStep-interviews db db' (deleted i e _ h) = ground arith
VacancyStep-interviews db db' (published n i e row _ h) = ground arith
VacancyStep-interviews db db' (resumed n i e row _ h) = ground arith
VacancyStep-interviews db db' (paused i e row _ h) = ground arith
VacancyStep-interviews db db' (closed i e row _ h) = ground arith

InterviewStep-NoClash :
    (db db' : ReclutamientoDb)
    → InterviewStep db db'
    → NoClash db.entrevistas
    → NoClash db'.entrevistas
InterviewStep-NoClash db db' (programmed c e n i x row _ long fresh h) =
    crear_entrevista-NoClash c e n i x row db db' long fresh h
InterviewStep-NoClash db db' (reprogrammed c e n i x row _ long h) =
    let edit = editar_entrevista-Edited c e n i x row db db' h in
    Edited-NoClash i x edit.0 db db' long edit.1
InterviewStep-NoClash db db' (moved e i s row _ h) =
    Settled-NoClash db db' (estado_entrevista-Settled e i s row db db' h)
InterviewStep-NoClash db db' (held e n i x row _ h) =
    Settled-NoClash db db' (resultado_entrevista-Settled e n i x row db db' h)
InterviewStep-NoClash db db' (confirmed n c i row _ h) =
    Settled-NoClash db db' (confirmar_entrevista-Settled n c i row db db' h)

Step-NoClash :
    (db db' : ReclutamientoDb) → Step db db' → NoClash db.entrevistas → NoClash db'.entrevistas
Step-NoClash db db' (interview s) free = InterviewStep-NoClash db db' s free
Step-NoClash db db' (application s) free = rw (ApplicationStep-interviews db db' s) free
Step-NoClash db db' (vacancy s) free = rw (VacancyStep-interviews db db' s) free

-- Whatever requests are made, in any order, no interviewer comes to have two interviews that wait to be
-- held and overlap in time, where there were none at the start.
pub Run-NoClash :
    (db db' : ReclutamientoDb) → NoClash db.entrevistas → Run db db' → NoClash db'.entrevistas
Run-NoClash db _ free (stay _) = free
Run-NoClash db db' free (then_step _ mid _ one more) =
    Run-NoClash mid db' (Step-NoClash db mid one free) more
