-- ===== src/Reclutamiento/Evaluaciones.antt =====
-- The evaluations of an application: `guardar_evaluacion` of `GestionarSeleccion`, and
-- `crear_evaluacion` and `editar_evaluacion` of seleccion_router.py.
use backend_ssas_rrhh.Base.{
  ℕ, Bool, true, false, not, ◌&&◌, Option, none, some, List, String, ◌==◌, is_some, add_row, ok,
  ◌>>=◌, ◌>>◌, raise_if,
}
use backend_ssas_rrhh.Session.{Handler}
use backend_ssas_rrhh.Nomina.Rows.{CurrentUser}
use backend_ssas_rrhh.Reclutamiento.Rows.{EstadoPostulacion, Evaluacion, ReclutamientoDb}
use backend_ssas_rrhh.Reclutamiento.Lookup.{
  SeleccionError, http, conflicto, update_key, postulacion, evaluacion, responsable, target_empresa,
}

-- `EvaluacionRequest`
pub record EvaluacionRequest : Type 0 where
  pub evaluador_id : Option ℕ
  pub tipo : String
  pub nombre : String
  pub puntaje : ℕ
  pub puntaje_maximo : ℕ
  pub aprobado : Bool
  pub observaciones : String

abbrev is_fuera : EstadoPostulacion → Bool
is_fuera EstadoPostulacion.retirada = true
is_fuera EstadoPostulacion.descartada = true
is_fuera _ = false

abbrev pub with_evaluacion : EvaluacionRequest → Evaluacion → Evaluacion
with_evaluacion x e = record e {
  tipo = x.tipo;
  nombre = x.nombre;
  puntaje = x.puntaje;
  puntaje_maximo = x.puntaje_maximo;
  aprobado = x.aprobado;
  observaciones = x.observaciones;
}

abbrev pub new_evaluacion : ℕ → ℕ → ℕ → EvaluacionRequest → Evaluacion
new_evaluacion new_id postulacion_id evaluador_id x = record {
  id = new_id;
  postulacion_id = postulacion_id;
  evaluador_id = evaluador_id;
  tipo = x.tipo;
  nombre = x.nombre;
  puntaje = x.puntaje;
  puntaje_maximo = x.puntaje_maximo;
  aprobado = x.aprobado;
  observaciones = x.observaciones;
}

abbrev pub evaluacion_key : Evaluacion → ℕ
evaluacion_key e = e.id

-- `evaluacion_id` is that of the row to correct, or `none` for a new row, of the id `new_id`.
unfoldable pub guardar_evaluacion :
    ℕ → ℕ → ℕ → EvaluacionRequest → ℕ → Option ℕ → Handler ReclutamientoDb SeleccionError Evaluacion
guardar_evaluacion empresa new_id post_id x actor_id evaluacion_id db = do
  post ← postulacion empresa db post_id
  raise_if (is_fuera post.estado) (conflicto "La postulación no permite registrar evaluaciones")
  elim evaluacion_id [
    | none ↦ ok (
      new_evaluacion new_id post.id actor_id x,
      record db {
        evaluaciones = add_row (new_evaluacion new_id post.id actor_id x) db.evaluaciones;
      },
    )
    | some id ↦ evaluacion empresa db id >>= λ item. ok (
      with_evaluacion x item,
      record db { evaluaciones = update_key evaluacion_key id (with_evaluacion x) db.evaluaciones },
    )
  ]

-- The evaluator whom a request names, or the user.
abbrev pub named_evaluador : CurrentUser → EvaluacionRequest → ℕ
named_evaluador user x = elim x.evaluador_id [ none ↦ user.id | some id ↦ id ]

module _ (permission_codes : ℕ → ℕ → List String) (user : CurrentUser) where
  unfoldable pub crear_evaluacion :
      Option ℕ → ℕ → ℕ → EvaluacionRequest → Handler ReclutamientoDb SeleccionError Evaluacion
  crear_evaluacion empresa_id new_id id x db = do
    empresa ← target_empresa user empresa_id
    let evaluador = named_evaluador user x
    raise_if (not (is_some user.empresa_id) && not (is_some x.evaluador_id))
        (http 422 "Selecciona un evaluador de la empresa")
    raise_if (is_some user.empresa_id && not (evaluador == user.id))
        (http 403 "Debes registrar la evaluación con tu propia identidad")
    responsable empresa db permission_codes evaluador "evaluaciones:gestionar"
    guardar_evaluacion empresa new_id id x evaluador none db

abbrev other_evaluador : EvaluacionRequest → Evaluacion → Bool
other_evaluador x original = elim x.evaluador_id [
  | none ↦ false
  | some id ↦ not (id == original.evaluador_id)
]

unfoldable pub editar_evaluacion :
    CurrentUser
    → Option ℕ
    → ℕ
    → EvaluacionRequest
    → Handler ReclutamientoDb SeleccionError Evaluacion
editar_evaluacion user empresa_id id x db = do
  empresa ← target_empresa user empresa_id
  original ← evaluacion empresa db id
  raise_if (other_evaluador x original)
      (http 409 "La corrección no puede cambiar el evaluador original")
  guardar_evaluacion empresa id original.postulacion_id x user.id (some id) db
