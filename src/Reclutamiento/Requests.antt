-- ===== src/Reclutamiento/Requests.antt =====
-- The requests that change the tables of recruitment, each as one step of the database. What the
-- schemas of the requests demand, and that a new id is in no table, stands with the step.
use backend_ssas_rrhh.Base.{
  ℕ, ◌≡◌, ◌≤◌, Bool, true, false, Option, none, some, String, List, ◌==◌, any, find_first, leb, ok,
}
use backend_ssas_rrhh.Nomina.Rows.{CurrentUser}
use backend_ssas_rrhh.Reclutamiento.Rows.{
  EstadoEntrevista, Vacante, Postulacion, Postulante, Entrevista, Evaluacion, Empleado,
  ReclutamientoDb,
}
use backend_ssas_rrhh.Reclutamiento.Entrevistas.{
  EntrevistaRequest, entrevista_key, crear_entrevista, editar_entrevista,
}
use backend_ssas_rrhh.Reclutamiento.Transiciones.{
  ResultadoRequest, estado_entrevista, resultado_entrevista, confirmar_entrevista,
}
use backend_ssas_rrhh.Reclutamiento.Evaluaciones.{
  EvaluacionRequest, crear_evaluacion, editar_evaluacion,
}
use backend_ssas_rrhh.Reclutamiento.Contratacion.{ContratarRequest, contratar, banco, asociar}
use backend_ssas_rrhh.Reclutamiento.Tablero.{cambiar_etapa, rechazar, registrar_puntaje}
use backend_ssas_rrhh.Reclutamiento.Publica.{
  CvAdjunto, DatosPostulante, Entorno, crear_postulacion_publica,
}
use backend_ssas_rrhh.Reclutamiento.Vacantes.{
  CrearVacanteRequest, ActualizarVacanteRequest, crear, actualizar, eliminar,
}
use backend_ssas_rrhh.Reclutamiento.Publicacion.{publicar, reanudar, pausar, cerrar}

-- `cantidad_vacantes` is positive where it was sent.
abbrev pub positive_if_sent : Option ℕ → Bool
positive_if_sent none = true
positive_if_sent (some n) = leb 1 n

-- A request about interviews, with its effect.
pub data InterviewStep (db : ReclutamientoDb) : ReclutamientoDb → Type 0 where
  programmed :
      (permission_codes : ℕ → ℕ → List String) (empresa now new_id : ℕ) (x : EntrevistaRequest)
      (row : Entrevista) (db' : ReclutamientoDb)
      → 1 ≤ x.duracion_min
      → find_first (λ e. entrevista_key e == new_id) db.entrevistas ≡ none
      → crear_entrevista permission_codes empresa now new_id x db ≡ ok (row, db')
      → InterviewStep db db'
  reprogrammed :
      (permission_codes : ℕ → ℕ → List String) (empresa now id : ℕ) (x : EntrevistaRequest)
      (row : Entrevista) (db' : ReclutamientoDb)
      → 1 ≤ x.duracion_min
      → editar_entrevista permission_codes empresa now id x db ≡ ok (row, db')
      → InterviewStep db db'
  moved :
      (empresa id : ℕ) (estado : EstadoEntrevista) (row : Entrevista) (db' : ReclutamientoDb)
      → estado_entrevista empresa id estado db ≡ ok (row, db')
      → InterviewStep db db'
  held :
      (empresa now id : ℕ) (x : ResultadoRequest) (row : Entrevista) (db' : ReclutamientoDb)
      → resultado_entrevista empresa now id x db ≡ ok (row, db')
      → InterviewStep db db'
  confirmed :
      (now : ℕ) (codigo : String) (id : ℕ) (row : Entrevista) (db' : ReclutamientoDb)
      → confirmar_entrevista now codigo id db ≡ ok (row, db')
      → InterviewStep db db'

-- A request about applications, applicants and employees.
pub data ApplicationStep (db : ReclutamientoDb) : ReclutamientoDb → Type 0 where
  hired :
      (lower casefold : String → String) (empresa now new_id post_id : ℕ) (x : ContratarRequest)
      (row : Empleado) (db' : ReclutamientoDb)
      → contratar lower casefold empresa now new_id post_id x db ≡ ok (row, db')
      → ApplicationStep db db'
  pooled :
      (empresa id : ℕ) (incluir : Bool) (row : Postulante) (db' : ReclutamientoDb)
      → banco empresa id incluir db ≡ ok (row, db')
      → ApplicationStep db db'
  associated :
      (empresa now new_id : ℕ) (codigo : String) (id vacante_id : ℕ) (row : Postulacion)
      (db' : ReclutamientoDb)
      → asociar empresa now new_id codigo id vacante_id db ≡ ok (row, db')
      → ApplicationStep db db'
  applied :
      (lower suffix : String → String) (save_cv : CvAdjunto → String → String) (env : Entorno)
      (x : DatosPostulante) (cv : CvAdjunto) (row : Postulacion) (db' : ReclutamientoDb)
      → any (λ (p : Postulacion). p.postulante_id == env.postulante_id) db.postulaciones ≡ false
      → crear_postulacion_publica lower suffix save_cv env x cv db ≡ ok (row, db')
      → ApplicationStep db db'
  staged :
      (user : CurrentUser) (empresa_id : Option ℕ) (now id etapa_id : ℕ) (row : Postulacion)
      (db' : ReclutamientoDb)
      → cambiar_etapa user empresa_id now id etapa_id db ≡ ok (row, db')
      → ApplicationStep db db'
  rejected :
      (user : CurrentUser) (empresa_id : Option ℕ) (now id motivo_id : ℕ) (row : Postulacion)
      (db' : ReclutamientoDb)
      → rechazar user empresa_id now id motivo_id db ≡ ok (row, db')
      → ApplicationStep db db'
  scored :
      (user : CurrentUser) (empresa_id : Option ℕ) (now id puntaje : ℕ) (row : Postulacion)
      (db' : ReclutamientoDb)
      → registrar_puntaje user empresa_id now id puntaje db ≡ ok (row, db')
      → ApplicationStep db db'
  evaluated :
      (permission_codes : ℕ → ℕ → List String) (user : CurrentUser) (empresa_id : Option ℕ)
      (new_id id : ℕ) (x : EvaluacionRequest) (row : Evaluacion) (db' : ReclutamientoDb)
      → crear_evaluacion permission_codes user empresa_id new_id id x db ≡ ok (row, db')
      → ApplicationStep db db'
  corrected :
      (user : CurrentUser) (empresa_id : Option ℕ) (id : ℕ) (x : EvaluacionRequest)
      (row : Evaluacion) (db' : ReclutamientoDb)
      → editar_evaluacion user empresa_id id x db ≡ ok (row, db')
      → ApplicationStep db db'

-- A request about vacancies.
pub data VacancyStep (db : ReclutamientoDb) : ReclutamientoDb → Type 0 where
  created :
      (empresa responsable_id new_id : ℕ) (x : CrearVacanteRequest) (row : Vacante)
      (db' : ReclutamientoDb)
      → 1 ≤ x.cantidad_vacantes
      → any (λ (p : Postulacion). p.vacante_id == new_id) db.postulaciones ≡ false
      → crear empresa responsable_id new_id x db ≡ ok (row, db')
      → VacancyStep db db'
  updated :
      (id empresa : ℕ) (x : ActualizarVacanteRequest) (row : Vacante) (db' : ReclutamientoDb)
      → positive_if_sent x.cantidad_vacantes ≡ true
      → actualizar id empresa x db ≡ ok (row, db')
      → VacancyStep db db'
  deleted :
      (id empresa : ℕ) (db' : ReclutamientoDb)
      → eliminar id empresa db ≡ ok (tt, db')
      → VacancyStep db db'
  published :
      (now id empresa : ℕ) (row : Vacante) (db' : ReclutamientoDb)
      → publicar now id empresa db ≡ ok (row, db')
      → VacancyStep db db'
  resumed :
      (now id empresa : ℕ) (row : Vacante) (db' : ReclutamientoDb)
      → reanudar now id empresa db ≡ ok (row, db')
      → VacancyStep db db'
  paused :
      (id empresa : ℕ) (row : Vacante) (db' : ReclutamientoDb)
      → pausar id empresa db ≡ ok (row, db')
      → VacancyStep db db'
  closed :
      (id empresa : ℕ) (row : Vacante) (db' : ReclutamientoDb)
      → cerrar id empresa db ≡ ok (row, db')
      → VacancyStep db db'

pub data Step (db db' : ReclutamientoDb) : Type 0 where
  interview : InterviewStep db db' → Step db db'
  application : ApplicationStep db db' → Step db db'
  vacancy : VacancyStep db db' → Step db db'

-- Requests one after another.
pub data Run : ReclutamientoDb → ReclutamientoDb → Type 0 where
  stay : (db : ReclutamientoDb) → Run db db
  then_step : (db mid db' : ReclutamientoDb) → Step db mid → Run mid db' → Run db db'
