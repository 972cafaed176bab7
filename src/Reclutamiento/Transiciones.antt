-- ===== src/Reclutamiento/Transiciones.antt =====
-- The states of an interview: `transicion_entrevista` (src/ssas/postulaciones/domain/seleccion.py),
-- `estado_entrevista` and `resultado_entrevista` of `GestionarSeleccion`, and `confirmar_entrevista` of
-- src/ssas/postulaciones/infrastructure/http/entrevista_publica_router.py.
use backend_ssas_rrhh.Base.{
  ℕ, Bool, true, false, not, ◌&&◌, Option, none, some, String, ltb, ◌==◌, str_eq, find_first,
  Outcome, ok, ◌>>=◌, ◌>>◌, raise_if, or_raise, if◌then◌else◌,
}
use backend_ssas_rrhh.Session.{Handler}
use backend_ssas_rrhh.Reclutamiento.Rows.{
  EstadoEntrevista, Postulacion, Entrevista, ReclutamientoDb, is_activa, is_programada,
  is_pendiente,
}
use backend_ssas_rrhh.Reclutamiento.Lookup.{
  SeleccionError, http, conflicto, find_key, update_key, postulacion, entrevista,
}
use backend_ssas_rrhh.Reclutamiento.Entrevistas.{entrevista_key}

abbrev pub same_estado : EstadoEntrevista → EstadoEntrevista → Bool
same_estado EstadoEntrevista.programada EstadoEntrevista.programada = true
same_estado EstadoEntrevista.confirmada EstadoEntrevista.confirmada = true
same_estado EstadoEntrevista.realizada EstadoEntrevista.realizada = true
same_estado EstadoEntrevista.cancelada EstadoEntrevista.cancelada = true
same_estado _ _ = false

-- `siguiente in permitidas.get(actual, set())`
abbrev pub permitida : EstadoEntrevista → EstadoEntrevista → Bool
permitida EstadoEntrevista.programada EstadoEntrevista.confirmada = true
permitida EstadoEntrevista.programada EstadoEntrevista.cancelada = true
permitida EstadoEntrevista.programada EstadoEntrevista.realizada = true
permitida EstadoEntrevista.confirmada EstadoEntrevista.cancelada = true
permitida EstadoEntrevista.confirmada EstadoEntrevista.realizada = true
permitida _ _ = false

unfoldable pub transicion_entrevista :
    EstadoEntrevista → EstadoEntrevista → Outcome SeleccionError (Unit {0})
transicion_entrevista actual siguiente =
    raise_if (not (same_estado siguiente actual) && not (permitida actual siguiente))
      (conflicto "La entrevista no permite ese cambio de estado")

abbrev pub with_estado : EstadoEntrevista → Entrevista → Entrevista
with_estado estado e = record e { estado = estado }

-- `ResultadoRequest`
pub record ResultadoRequest : Type 0 where
  pub puntaje : ℕ
  pub observaciones : String
  pub recomendacion : String

abbrev pub with_resultado : ResultadoRequest → Entrevista → Entrevista
with_resultado x e = record e {
  estado = EstadoEntrevista.realizada;
  puntaje = some x.puntaje;
  observaciones = some x.observaciones;
  recomendacion = some x.recomendacion;
}

abbrev is_confirmada : EstadoEntrevista → Bool
is_confirmada EstadoEntrevista.confirmada = true
is_confirmada _ = false

-- A confirmation needs an application that is active.
unfoldable pub check_confirmada :
    ℕ → EstadoEntrevista → ℕ → ReclutamientoDb → Outcome SeleccionError (Unit {0})
check_confirmada empresa estado postulacion_id db =
    if is_confirmada estado
    then (do
      post ← postulacion empresa db postulacion_id
      raise_if (not (is_activa post.estado)) (conflicto "La postulación no está activa"))
    else ok tt

unfoldable pub estado_entrevista :
    ℕ → ℕ → EstadoEntrevista → Handler ReclutamientoDb SeleccionError Entrevista
estado_entrevista empresa id estado db = do
  item ← entrevista empresa db id
  transicion_entrevista item.estado estado
  check_confirmada empresa estado item.postulacion_id db
  ok (
    with_estado estado item,
    record db { entrevistas = update_key entrevista_key id (with_estado estado) db.entrevistas },
  )

unfoldable pub resultado_entrevista :
    ℕ → ℕ → ℕ → ResultadoRequest → Handler ReclutamientoDb SeleccionError Entrevista
resultado_entrevista empresa now id x db = do
  item ← entrevista empresa db id
  raise_if (ltb now item.fecha_hora) (conflicto "La entrevista aún no comenzó")
  transicion_entrevista item.estado EstadoEntrevista.realizada
  ok (
    with_resultado x item,
    record db { entrevistas = update_key entrevista_key id (with_resultado x) db.entrevistas },
  )

-- `_entrevista` of the public router: the next interview of the application that is not over.
abbrev pub is_proxima : ℕ → ℕ → Option ℕ → Entrevista → Bool
is_proxima now postulacion_id entrevista_id e =
    e.postulacion_id == postulacion_id
    && is_pendiente e.estado
    && ltb now e.fecha_hora
    && (elim entrevista_id [ none ↦ true | some i ↦ e.id == i ])

-- `confirmar_entrevista`: the applicant confirms with the tracking code, which is unique.
unfoldable pub confirmar_entrevista :
    ℕ → String → ℕ → Handler ReclutamientoDb SeleccionError Entrevista
confirmar_entrevista now codigo entrevista_id db = do
  post ←
      or_raise
        (find_first (λ (p : Postulacion). str_eq p.codigo_seguimiento codigo) db.postulaciones)
        (http 404 "No hay entrevista disponible.")
  raise_if (not (is_activa post.estado)) (http 409 "La postulación ya no está activa.")
  item ←
      or_raise
        (find_key entrevista_key entrevista_id (is_proxima now post.id (some entrevista_id))
          db.entrevistas)
        (http 409 "Esta entrevista ya no se puede confirmar.")
  raise_if (not (is_programada item.estado)) (http 409 "Esta entrevista ya no se puede confirmar.")
  ok (
    with_estado EstadoEntrevista.confirmada item,
    record db {
      entrevistas =
          update_key entrevista_key entrevista_id (with_estado EstadoEntrevista.confirmada)
            db.entrevistas;
    },
  )
