-- ===== src/Reclutamiento/Entrevistas.antt =====
-- The agenda of interviews: `validar_agenda` (src/ssas/postulaciones/domain/seleccion.py),
-- `guardar_entrevista` of `GestionarSeleccion`, for a new interview and for one that is changed, and
-- `sin_conflicto` of `SeleccionRepository`.
use backend_ssas_rrhh.Base.{
  ℕ, ◌+◌, ◌*◌, Bool, true, false, not, ◌&&◌, ◌||◌, Option, none, some, List, [], ◌∷◌, String, ltb,
  leb, ◌==◌, any, add_row, Outcome, ok, ◌>>=◌, ◌>>◌, raise_if, if◌then◌else◌,
}
use backend_ssas_rrhh.Session.{Handler}
use backend_ssas_rrhh.Auth.Text.{Text, text, strip}
use backend_ssas_rrhh.Reclutamiento.Rows.{
  EstadoEntrevista, Modalidad, Postulacion, Entrevista, ReclutamientoDb, is_activa, is_pendiente,
}
use backend_ssas_rrhh.Reclutamiento.Lookup.{
  SeleccionError, seleccion_error, conflicto, update_key, postulacion, entrevista, responsable,
}

-- `EntrevistaRequest`; the date is an instant that may lack its time zone.
pub record EntrevistaRequest : Type 0 where
  pub postulacion_id : ℕ
  pub entrevistador_id : ℕ
  pub tipo : String
  pub fecha_hora : ℕ
  pub con_zona : Bool
  pub duracion_min : ℕ
  pub modalidad : Modalidad
  pub enlace_reunion : Text
  pub lugar : Text

-- `s.startswith(prefix)`
abbrev pub startswith : Text → Text → Bool
startswith [] s = true
startswith (a ∷ prefix) [] = false
startswith (a ∷ prefix) (c ∷ s) = a == c && startswith prefix s

abbrev is_blank : Text → Bool
is_blank [] = true
is_blank (_ ∷ _) = false

abbrev is_virtual : Modalidad → Bool
is_virtual Modalidad.virtual = true
is_virtual _ = false

abbrev is_presencial : Modalidad → Bool
is_presencial Modalidad.presencial = true
is_presencial _ = false

unfoldable pub validar_agenda : EntrevistaRequest → Outcome SeleccionError (Unit {0})
validar_agenda x = do
  raise_if (not x.con_zona) (seleccion_error 422 "La fecha debe incluir zona horaria")
  raise_if (is_virtual x.modalidad && not (startswith (text "https://") x.enlace_reunion))
      (seleccion_error 422 "La entrevista virtual requiere un enlace HTTPS")
  raise_if (is_presencial x.modalidad && is_blank (strip x.lugar))
      (seleccion_error 422 "La entrevista presencial requiere un lugar")

-- `item.duracion_min or 45`, in seconds.
abbrev pub duracion : ℕ → ℕ
duracion minutes = (if minutes == 0 then 45 else minutes) * 60

-- The interview is of another row, and it takes the interviewer at that time.
abbrev pub conflicts : ℕ → ℕ → ℕ → Option ℕ → Entrevista → Bool
conflicts responsable_id fecha minutes excluir e =
    (e.entrevistador_id == responsable_id
      && is_pendiente e.estado
      && ltb e.fecha_hora (fecha + minutes * 60)
      && (elim excluir [ none ↦ true | some i ↦ not (e.id == i) ]))
    && ltb fecha (e.fecha_hora + duracion e.duracion_min)

unfoldable pub sin_conflicto :
    ℕ → ℕ → ℕ → Option ℕ → ReclutamientoDb → Outcome SeleccionError (Unit {0})
sin_conflicto responsable_id fecha minutes excluir db =
    raise_if (any (conflicts responsable_id fecha minutes excluir) db.entrevistas)
      (conflicto "El entrevistador ya tiene una entrevista en ese horario")

abbrev pub with_datos : EntrevistaRequest → Entrevista → Entrevista
with_datos x e = record e {
  postulacion_id = x.postulacion_id;
  entrevistador_id = x.entrevistador_id;
  tipo = x.tipo;
  fecha_hora = x.fecha_hora;
  duracion_min = x.duracion_min;
  modalidad = x.modalidad;
  enlace_reunion = x.enlace_reunion;
  lugar = x.lugar;
}

abbrev pub new_entrevista : ℕ → EntrevistaRequest → Entrevista
new_entrevista new_id x = record {
  id = new_id;
  postulacion_id = x.postulacion_id;
  entrevistador_id = x.entrevistador_id;
  tipo = x.tipo;
  fecha_hora = x.fecha_hora;
  duracion_min = x.duracion_min;
  modalidad = x.modalidad;
  enlace_reunion = x.enlace_reunion;
  lugar = x.lugar;
  estado = EstadoEntrevista.programada;
  puntaje = none;
  observaciones = none;
  recomendacion = none;
}

abbrev pub entrevista_key : Entrevista → ℕ
entrevista_key e = e.id

-- The checks that come before the row is looked for.
unfoldable pub check_entrevista :
    (ℕ → ℕ → List String)
    → ℕ
    → ℕ
    → EntrevistaRequest
    → ReclutamientoDb
    → Outcome SeleccionError Postulacion
check_entrevista permission_codes empresa now x db = do
  validar_agenda x
  raise_if (leb x.fecha_hora now)
      (seleccion_error 422 "La entrevista debe programarse para una fecha futura")
  post ← postulacion empresa db x.postulacion_id
  raise_if (not (is_activa post.estado)) (conflicto "La postulación no está activa")
  responsable empresa db permission_codes x.entrevistador_id "entrevistas:registrar_resultado"
  ok post

module _ (permission_codes : ℕ → ℕ → List String) (empresa now : ℕ) where
  -- `guardar_entrevista(datos)`
  unfoldable pub crear_entrevista :
      ℕ → EntrevistaRequest → Handler ReclutamientoDb SeleccionError Entrevista
  crear_entrevista new_id x db = do
    check_entrevista permission_codes empresa now x db
    sin_conflicto x.entrevistador_id x.fecha_hora x.duracion_min none db
    let item = new_entrevista new_id x
    ok (item, record db { entrevistas = add_row item db.entrevistas })

  -- `guardar_entrevista(datos, entrevista_id)`
  unfoldable pub editar_entrevista :
      ℕ → EntrevistaRequest → Handler ReclutamientoDb SeleccionError Entrevista
  editar_entrevista entrevista_id x db = do
    post ← check_entrevista permission_codes empresa now x db
    item ← entrevista empresa db entrevista_id
    raise_if (not (is_pendiente item.estado) || not (item.postulacion_id == post.id))
        (conflicto "No se puede editar esta entrevista ni cambiar su postulación")
    sin_conflicto x.entrevistador_id x.fecha_hora x.duracion_min (some entrevista_id) db
    ok (
      with_datos x item,
      record db {
        entrevistas = update_key entrevista_key entrevista_id (with_datos x) db.entrevistas;
      },
    )
