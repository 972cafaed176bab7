-- ===== src/Reclutamiento/Contratacion.antt =====
-- Hiring and the talent pool: `contratar`, `banco` and `asociar` of `GestionarSeleccion`
-- (src/ssas/postulaciones/application/use_cases/gestionar_seleccion.py). `lower` is the `lower` of the
-- database and `casefold` that of Python.
use backend_ssas_rrhh.Base.{
  ℕ, ◌+◌, Bool, true, false, not, ◌&&◌, ◌||◌, none, some, String, leb, ◌==◌, str_eq, is_some,
  find_first, add_row, ok, ◌>>=◌, ◌>>◌, raise_if, or_raise, if◌then◌else◌,
}
use backend_ssas_rrhh.Session.{Handler}
use backend_ssas_rrhh.Reclutamiento.Rows.{
  EstadoVacante, EstadoPostulacion, Vacante, Postulacion, Postulante, Empleado, EtapaReclutamiento,
  ReclutamientoDb, is_publicada, is_activa, is_contratada,
}
use backend_ssas_rrhh.Reclutamiento.Lookup.{
  SeleccionError, conflicto, find_key, update_key, count, postulacion, vacante, postulante,
  first_stage,
}

-- `ContratarRequest`
pub record ContratarRequest : Type 0 where
  pub codigo : String
  pub apellido_paterno : String
  pub apellido_materno : String
  pub ci_expedido : String
  pub fecha_ingreso : ℕ

abbrev pub vacante_key : Vacante → ℕ
vacante_key v = v.id

abbrev pub postulacion_key : Postulacion → ℕ
postulacion_key p = p.id

abbrev pub empleado_key : Empleado → ℕ
empleado_key e = e.id

-- `in {"CERRADA", "CANCELADA", "BORRADOR"}`
abbrev pub no_contrata : EstadoVacante → Bool
no_contrata EstadoVacante.cerrada = true
no_contrata EstadoVacante.cancelada = true
no_contrata EstadoVacante.borrador = true
no_contrata _ = false

-- An application for the vacancy that ended in a contract.
abbrev pub hired_for : ℕ → Postulacion → Bool
hired_for vacante_id p = p.vacante_id == vacante_id && is_contratada p.estado

abbrev pub new_empleado : ℕ → ℕ → Postulante → ContratarRequest → Empleado
new_empleado empresa new_id candidato x = record {
  id = new_id;
  empresa_id = empresa;
  codigo = x.codigo;
  nombres = candidato.nombres;
  apellido_paterno = x.apellido_paterno;
  apellido_materno = x.apellido_materno;
  ci = candidato.ci;
  ci_expedido = x.ci_expedido;
  telefono = candidato.telefono;
  email_personal = candidato.email;
  fecha_ingreso = x.fecha_ingreso;
  estado = "ACTIVO";
}

abbrev pub with_empleado : ℕ → ℕ → ℕ → Postulacion → Postulacion
with_empleado empleado_id etapa_id now p = record p {
  empleado_id = some empleado_id;
  estado = EstadoPostulacion.contratada;
  etapa_id = etapa_id;
  motivo_rechazo_id = none;
  fecha_ultimo_cambio = now;
}

abbrev pub with_cierre : ℕ → Vacante → Vacante
with_cierre now v = record v { estado = EstadoVacante.cerrada; fecha_cierre = some now }

-- The vacancy is closed when the last place is filled.
abbrev pub close_if_full : ℕ → ℕ → Vacante → Vacante
close_if_full now hired v = if hired + 1 == v.cantidad_vacantes then with_cierre now v else v

-- The application was hired before: the same employee is the answer, for the same code.
unfoldable pub ya_contratada :
    ℕ → ContratarRequest → ℕ → Handler ReclutamientoDb SeleccionError Empleado
ya_contratada empresa x empleado_id db = do
  empleado ←
      or_raise (find_key empleado_key empleado_id (λ e. e.empresa_id == empresa) db.empleados)
        (conflicto "La contratación registrada no tiene un empleado válido")
  raise_if (not (str_eq empleado.codigo x.codigo))
      (conflicto "Esta postulación ya fue contratada con otro código")
  ok (empleado, db)

module _ (lower casefold : String → String) where
  -- An employee of the company with this identity card, whatever its case.
  abbrev pub has_ci : ℕ → String → Empleado → Bool
  has_ci empresa ci e = e.empresa_id == empresa && str_eq (lower e.ci) (casefold ci)

  abbrev pub has_codigo : ℕ → String → Empleado → Bool
  has_codigo empresa codigo e = e.empresa_id == empresa && str_eq (lower e.codigo) (casefold codigo)

  unfoldable pub nueva_contratacion :
      ℕ
      → ℕ
      → ℕ
      → Postulacion
      → Vacante
      → ContratarRequest
      → Handler ReclutamientoDb SeleccionError Empleado
  nueva_contratacion empresa now new_id post v x db = do
    raise_if (not (is_activa post.estado) || no_contrata v.estado)
        (conflicto "La vacante o postulación no permite contratar")
    let hired = count (hired_for v.id) db.postulaciones
    raise_if (leb v.cantidad_vacantes hired)
        (conflicto "La vacante ya tiene todos sus cupos cubiertos")
    candidato ← postulante empresa db post.postulante_id
    raise_if (is_some (find_first (has_ci empresa candidato.ci) db.empleados))
        (conflicto "La persona ya está registrada como empleado de esta empresa")
    raise_if (is_some (find_first (has_codigo empresa x.codigo) db.empleados))
        (conflicto "El código de empleado ya existe en la empresa")
    etapa ←
        or_raise (first_stage empresa (λ (e : EtapaReclutamiento). e.es_contratado) db)
          (conflicto "Configura una etapa de contratado para esta empresa")
    let empleado = new_empleado empresa new_id candidato x
    ok (
      empleado,
      record db {
        empleados = add_row empleado db.empleados;
        postulaciones =
            update_key postulacion_key post.id (with_empleado new_id etapa.id now) db.postulaciones;
        vacantes = update_key vacante_key v.id (close_if_full now hired) db.vacantes;
      },
    )

  -- The application is read twice, around the lock of the vacancy; in one step the rows are the same.
  unfoldable pub contratar :
      ℕ → ℕ → ℕ → ℕ → ContratarRequest → Handler ReclutamientoDb SeleccionError Empleado
  contratar empresa now new_id post_id x db = do
    post ← postulacion empresa db post_id
    v ← vacante empresa db post.vacante_id
    elim (is_contratada post.estado) [
      | true ↦ elim post.empleado_id [
        | some empleado_id ↦ ya_contratada empresa x empleado_id db
        | none ↦ nueva_contratacion empresa now new_id post v x db
      ]
      | false ↦ nueva_contratacion empresa now new_id post v x db
    ]

abbrev pub postulante_key : Postulante → ℕ
postulante_key c = c.id

abbrev pub with_banco : Bool → Postulante → Postulante
with_banco incluir c = record c { en_banco_talento = incluir }

unfoldable pub banco : ℕ → ℕ → Bool → Handler ReclutamientoDb SeleccionError Postulante
banco empresa id incluir db = do
  candidate ← postulante empresa db id
  ok (
    with_banco incluir candidate,
    record db { postulantes = update_key postulante_key id (with_banco incluir) db.postulantes },
  )

abbrev pub new_postulacion : ℕ → ℕ → ℕ → ℕ → String → ℕ → Postulacion
new_postulacion new_id vacante_id postulante_id etapa_id codigo now = record {
  id = new_id;
  vacante_id = vacante_id;
  postulante_id = postulante_id;
  etapa_id = etapa_id;
  motivo_rechazo_id = none;
  empleado_id = none;
  estado = EstadoPostulacion.activa;
  puntaje_manual = none;
  codigo_seguimiento = codigo;
  fecha_ultimo_cambio = now;
}

-- The application of this person for this vacancy.
abbrev pub is_de : ℕ → ℕ → Postulacion → Bool
is_de vacante_id postulante_id p = p.vacante_id == vacante_id && p.postulante_id == postulante_id

unfoldable pub asociar :
    ℕ → ℕ → ℕ → String → ℕ → ℕ → Handler ReclutamientoDb SeleccionError Postulacion
asociar empresa now new_id codigo id vacante_id db = do
  candidate ← postulante empresa db id
  v ← vacante empresa db vacante_id
  raise_if (not candidate.en_banco_talento)
      (conflicto "El postulante no pertenece al banco de talentos")
  raise_if (not (is_publicada v.estado)) (conflicto "Selecciona una vacante publicada")
  elim (find_first (is_de v.id candidate.id) db.postulaciones) [
    | some existing ↦ ok (existing, db)
    | none ↦
        or_raise (first_stage empresa (λ (e : EtapaReclutamiento). e.es_inicial) db)
          (conflicto "La empresa no tiene una etapa inicial")
        >>= λ etapa.
            let post = new_postulacion new_id v.id candidate.id etapa.id codigo now in
            ok (post, record db { postulaciones = add_row post db.postulaciones })
  ]
