-- ===== src/Reclutamiento/Publicacion.antt =====
-- The states of a vacancy: `publicar`, `reanudar`, `pausar` and `cerrar` of `GestionarVacantes`, and the
-- endpoints `publicar_vacante` and `reanudar_vacante`
-- (src/ssas/vacantes/infrastructure/http/router.py), which ask the plan of the company for room.
use backend_ssas_rrhh.Base.{
  ℕ, Bool, false, not, ◌||◌, Option, none, some, map, String, ltb, Outcome, ok, err, ◌>>=◌, ◌>>◌,
  raise_if,
}
use backend_ssas_rrhh.Session.{Handler}
use backend_ssas_rrhh.Suscripciones.{PlanDb, PolicyError, require_vacancy_capacity}
use backend_ssas_rrhh.Suscripciones as Plan
use backend_ssas_rrhh.Nomina.Rows.{CurrentUser}
use backend_ssas_rrhh.Reclutamiento.Rows.{
  EstadoVacante, Vacante, ReclutamientoDb, is_borrador, is_publicada, is_pausada,
}
use backend_ssas_rrhh.Reclutamiento.Lookup.{SeleccionError, update_key, target_empresa}
use backend_ssas_rrhh.Reclutamiento.Contratacion.{vacante_key}
use backend_ssas_rrhh.Reclutamiento.Vacantes.{VacanteError, get_or, obtener}

abbrev pub is_vencida : ℕ → Vacante → Bool
is_vencida now v = elim v.fecha_cierre [ none ↦ false | some cierre ↦ ltb cierre now ]

abbrev pub with_publicacion : ℕ → Vacante → Vacante
with_publicacion fecha v = record v {
  estado = EstadoVacante.publicada;
  fecha_publicacion = some fecha;
}

abbrev pub with_estado_vacante : EstadoVacante → Vacante → Vacante
with_estado_vacante estado v = record v { estado = estado }

-- `repository.publish`, at the first date of publication.
abbrev publish : ℕ → ℕ → Vacante → ReclutamientoDb → Vacante × ReclutamientoDb
publish now vacante_id current db =
    let fecha = get_or current.fecha_publicacion now in
    (
      with_publicacion fecha current,
      record db {
        vacantes = update_key vacante_key vacante_id (with_publicacion fecha) db.vacantes;
      },
    )

abbrev cambiar_estado : ℕ → EstadoVacante → Vacante → ReclutamientoDb → Vacante × ReclutamientoDb
cambiar_estado vacante_id estado current db = (
  with_estado_vacante estado current,
  record db {
    vacantes = update_key vacante_key vacante_id (with_estado_vacante estado) db.vacantes;
  },
)

module _ (now vacante_id empresa : ℕ) where
  unfoldable pub publicar : Handler ReclutamientoDb VacanteError Vacante
  publicar db = do
    current ← obtener vacante_id empresa db
    raise_if (not (is_borrador current.estado || is_pausada current.estado)) (
        VacanteError.invalid_state
          "Solo se pueden publicar o reanudar vacantes en borrador o pausadas")
    raise_if (is_vencida now current) (VacanteError.invalid_state "La fecha de cierre ya vencio")
    ok (publish now vacante_id current db)

  unfoldable pub reanudar : Handler ReclutamientoDb VacanteError Vacante
  reanudar db = do
    current ← obtener vacante_id empresa db
    raise_if (not (is_pausada current.estado))
        (VacanteError.invalid_state "Solo se pueden reanudar vacantes pausadas")
    raise_if (is_vencida now current) (VacanteError.invalid_state "La fecha de cierre ya vencio")
    ok (publish now vacante_id current db)

module _ (vacante_id empresa : ℕ) where
  unfoldable pub pausar : Handler ReclutamientoDb VacanteError Vacante
  pausar db = do
    current ← obtener vacante_id empresa db
    raise_if (not (is_publicada current.estado))
        (VacanteError.invalid_state "Solo se pueden pausar vacantes publicadas")
    ok (cambiar_estado vacante_id EstadoVacante.pausada current db)

  unfoldable pub cerrar : Handler ReclutamientoDb VacanteError Vacante
  cerrar db = do
    current ← obtener vacante_id empresa db
    raise_if (not (is_publicada current.estado || is_pausada current.estado))
        (VacanteError.invalid_state "Solo se pueden cerrar vacantes publicadas o pausadas")
    ok (cambiar_estado vacante_id EstadoVacante.cerrada current db)

-- The texts of `vacante.estado`, which the policy reads.
abbrev pub estado_text : EstadoVacante → String
estado_text EstadoVacante.borrador = "BORRADOR"
estado_text EstadoVacante.publicada = "PUBLICADA"
estado_text EstadoVacante.pausada = "PAUSADA"
estado_text EstadoVacante.cerrada = "CERRADA"
estado_text EstadoVacante.cancelada = "CANCELADA"

abbrev pub plan_row : Vacante → Plan.Vacante
plan_row v = record { empresa_id = v.empresa_id; estado = estado_text v.estado }

-- The tables that the policy of the plan reads, with the vacancies of this database.
abbrev pub plan_view : ReclutamientoDb → PlanDb
plan_view db = record db.plan { vacantes = map plan_row db.vacantes }

abbrev pub as_sin_empresa : {A : Type 0} → Outcome SeleccionError A → Outcome VacanteError A
as_sin_empresa (ok a) = ok a
as_sin_empresa (err e) = err (VacanteError.sin_empresa e)

abbrev pub as_sin_plan : {A : Type 0} → Outcome PolicyError A → Outcome VacanteError A
as_sin_plan (ok a) = ok a
as_sin_plan (err e) = err (VacanteError.sin_plan e)

module _ (grace_days now : ℕ) (user : CurrentUser) (empresa_id : Option ℕ) (vacante_id : ℕ) where
  unfoldable pub publicar_vacante : Handler ReclutamientoDb VacanteError Vacante
  publicar_vacante db = do
    target ← as_sin_empresa (target_empresa user empresa_id)
    as_sin_plan (require_vacancy_capacity grace_days now target (plan_view db))
    publicar now vacante_id target db

  unfoldable pub reanudar_vacante : Handler ReclutamientoDb VacanteError Vacante
  reanudar_vacante db = do
    target ← as_sin_empresa (target_empresa user empresa_id)
    as_sin_plan (require_vacancy_capacity grace_days now target (plan_view db))
    reanudar now vacante_id target db
