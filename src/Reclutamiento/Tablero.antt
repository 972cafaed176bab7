-- ===== src/Reclutamiento/Tablero.antt =====
-- The board of applications: `cambiar_etapa`, `rechazar` and `registrar_puntaje` of
-- src/ssas/postulaciones/infrastructure/http/tablero_router.py. The answer is the row that changed; the
-- texts that it is shown with are left out.
use backend_ssas_rrhh.Base.{
  ℕ, Bool, true, false, ◌&&◌, Option, none, some, ◌==◌, ok, ◌>>=◌, ◌>>◌, raise_if, or_raise,
}
use backend_ssas_rrhh.Session.{Handler}
use backend_ssas_rrhh.Nomina.Rows.{CurrentUser}
use backend_ssas_rrhh.Reclutamiento.Rows.{
  EstadoPostulacion, Postulacion, EtapaReclutamiento, Catalogo, ReclutamientoDb,
}
use backend_ssas_rrhh.Reclutamiento.Lookup.{
  SeleccionError, http, find_key, update_key, in_company, first_stage, target_empresa,
}
use backend_ssas_rrhh.Reclutamiento.Contratacion.{postulacion_key}

-- `estado.in_(["ACTIVA", "DESCARTADA"])`
abbrev pub is_movible : EstadoPostulacion → Bool
is_movible EstadoPostulacion.activa = true
is_movible EstadoPostulacion.descartada = true
is_movible _ = false

abbrev pub movible_in : ℕ → ReclutamientoDb → Postulacion → Bool
movible_in empresa db p = is_movible p.estado && in_company empresa db p

abbrev pub with_etapa : ℕ → ℕ → Postulacion → Postulacion
with_etapa etapa_id now p = record p {
  etapa_id = etapa_id;
  estado = EstadoPostulacion.activa;
  motivo_rechazo_id = none;
  fecha_ultimo_cambio = now;
}

unfoldable pub cambiar_etapa :
    CurrentUser → Option ℕ → ℕ → ℕ → ℕ → Handler ReclutamientoDb SeleccionError Postulacion
cambiar_etapa user empresa_id now postulacion_id etapa_id db = do
  empresa ← target_empresa user empresa_id
  valid ←
      or_raise
        (find_key (λ (e : EtapaReclutamiento). e.id) etapa_id (λ e. e.empresa_id == empresa)
          db.etapas)
        (http 404 "Etapa no encontrada")
  raise_if valid.es_contratado
      (http 409 "Usa la acción Contratar para crear el empleado y pasar a esa etapa")
  raise_if valid.es_rechazado (http 409 "Usa la acción Rechazar e indica el motivo")
  post ←
      or_raise (find_key postulacion_key postulacion_id (movible_in empresa db) db.postulaciones)
        (http 409 "La postulación no existe en la empresa o no permite cambiar de etapa")
  ok (
    with_etapa etapa_id now post,
    record db {
      postulaciones =
          update_key postulacion_key postulacion_id (with_etapa etapa_id now) db.postulaciones;
    },
  )

abbrev pub with_rechazo : ℕ → ℕ → ℕ → Postulacion → Postulacion
with_rechazo etapa_id motivo_id now p = record p {
  etapa_id = etapa_id;
  motivo_rechazo_id = some motivo_id;
  estado = EstadoPostulacion.descartada;
  fecha_ultimo_cambio = now;
}

unfoldable pub rechazar :
    CurrentUser → Option ℕ → ℕ → ℕ → ℕ → Handler ReclutamientoDb SeleccionError Postulacion
rechazar user empresa_id now postulacion_id motivo_rechazo_id db = do
  empresa ← target_empresa user empresa_id
  or_raise
      (find_key (λ (m : Catalogo). m.id) motivo_rechazo_id
        (λ m. m.empresa_id == empresa && m.activo) db.motivos)
      (http 404 "Motivo de rechazo no encontrado")
  etapa ←
      or_raise (first_stage empresa (λ (e : EtapaReclutamiento). e.es_rechazado) db)
        (http 409 "Configura una etapa de rechazo para la empresa")
  post ←
      or_raise (find_key postulacion_key postulacion_id (movible_in empresa db) db.postulaciones)
        (http 404 "Postulacion no encontrada")
  ok (
    with_rechazo etapa.id motivo_rechazo_id now post,
    record db {
      postulaciones =
          update_key postulacion_key postulacion_id (with_rechazo etapa.id motivo_rechazo_id now)
            db.postulaciones;
    },
  )

abbrev pub with_puntaje : ℕ → ℕ → Postulacion → Postulacion
with_puntaje puntaje now p = record p { puntaje_manual = some puntaje; fecha_ultimo_cambio = now }

unfoldable pub registrar_puntaje :
    CurrentUser → Option ℕ → ℕ → ℕ → ℕ → Handler ReclutamientoDb SeleccionError Postulacion
registrar_puntaje user empresa_id now postulacion_id puntaje db = do
  empresa ← target_empresa user empresa_id
  post ←
      or_raise (find_key postulacion_key postulacion_id (in_company empresa db) db.postulaciones)
        (http 404 "Postulacion no encontrada")
  ok (
    with_puntaje puntaje now post,
    record db {
      postulaciones =
          update_key postulacion_key postulacion_id (with_puntaje puntaje now) db.postulaciones;
    },
  )
