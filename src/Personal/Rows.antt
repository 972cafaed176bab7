-- ===== src/Personal/Rows.antt =====
-- The tables of contracts and leave (src/ssas/personal/infrastructure/persistence/models.py),
-- with the columns that the endpoints of src/ssas/personal/infrastructure/http/router.py read or write,
-- and their queries for a worker. Keys are numbers, dates are ordinals, instants are seconds.
use backend_ssas_rrhh.Base.{
  ℕ, Bool, true, false, ◌&&◌, Option, none, some, List, String, ◌==◌, same_key, find_first, Outcome,
  ok, err, ◌>>=◌, or_raise, if◌then◌else◌,
}
use backend_ssas_rrhh.Reclutamiento.Lookup.{find_key}

-- `HTTPException(status, detail)`
pub data HttpError : Type 0 where
  http : ℕ → String → HttpError

-- `CurrentUser`; a user of the platform has no company.
pub record User : Type 0 where
  pub id : ℕ
  pub empresa_id : Option ℕ
  pub roles : List String

pub record Trabajador : Type 0 where
  pub id : ℕ
  pub empresa_id : ℕ
  pub usuario_id : Option ℕ
  pub estado : String
  pub fecha_ingreso : ℕ
  pub fecha_salida : Option ℕ

-- `contrato.estado`
pub data EstadoContrato : Type 0 where
  vigente reemplazado vencido : EstadoContrato

pub record Contrato : Type 0 where
  pub id : ℕ
  pub empresa_id : ℕ
  pub empleado_id : ℕ
  pub cargo_id : ℕ
  pub departamento_id : ℕ
  pub jefe_directo_id : Option ℕ
  pub contrato_anterior_id : Option ℕ
  pub numero_contrato : String
  pub hora_entrada_programada : ℕ
  pub horas_jornada : ℕ
  pub minutos_descanso : ℕ
  pub salario_basico : ℕ
  pub fecha_inicio : ℕ
  pub fecha_fin : Option ℕ
  pub estado : EstadoContrato

pub record TipoAusencia : Type 0 where
  pub id : ℕ
  pub empresa_id : ℕ
  pub codigo : String
  pub nombre : String
  pub es_remunerado : Bool
  pub descuenta_vacacion : Bool
  pub requiere_documento : Bool
  pub dias_maximos_anio : Option ℕ
  pub activo : Bool

pub record SaldoVacacion : Type 0 where
  pub id : ℕ
  pub empresa_id : ℕ
  pub empleado_id : ℕ
  pub gestion : ℕ
  pub dias_asignados : ℕ
  pub dias_usados : ℕ

-- `solicitud_ausencia.estado`
pub data EstadoSolicitud : Type 0 where
  pendiente aprobada rechazada : EstadoSolicitud

pub record Solicitud : Type 0 where
  pub id : ℕ
  pub empresa_id : ℕ
  pub empleado_id : ℕ
  pub tipo_ausencia_id : ℕ
  pub fecha_inicio : ℕ
  pub fecha_fin : ℕ
  pub dias_solicitados : ℕ
  pub dias_descontados : Option ℕ
  pub motivo : String
  pub documento_id : Option ℕ
  pub estado : EstadoSolicitud
  pub observacion_jefe : Option String
  pub resuelto_por_id : Option ℕ
  pub resuelto_en : Option ℕ

-- The formats that the files of a worker may have.
pub data Formato : Type 0 where
  pdf jpeg png : Formato

-- The path of a file, below the directory of the files of workers.
pub record Ruta : Type 0 where
  pub empresa : ℕ
  pub empleado : ℕ
  pub archivo : ℕ
  pub formato : Formato

-- `documento_empleado`
pub record Documento : Type 0 where
  pub id : ℕ
  pub empresa_id : ℕ
  pub empleado_id : ℕ
  pub tipo : List ℕ
  pub nombre : List ℕ
  pub ruta_privada : Ruta
  pub tipo_mime : Formato
  pub tamano_bytes : ℕ

-- `cargo`, and `departamento` without the last column.
pub record Cargo : Type 0 where
  pub id : ℕ
  pub empresa_id : ℕ
  pub departamento_id : Option ℕ

-- The approved payslips, by the month of their period.
pub record BoletaAprobada : Type 0 where
  pub empresa_id : ℕ
  pub empleado_id : ℕ
  pub gestion : ℕ
  pub mes : ℕ

pub record PersonalDb : Type 0 where
  pub trabajadores : List Trabajador
  pub contratos : List Contrato
  pub tipos : List TipoAusencia
  pub saldos : List SaldoVacacion
  pub solicitudes : List Solicitud
  pub documentos : List Documento
  pub cargos : List Cargo
  pub departamentos : List Cargo
  pub boletas_aprobadas : List BoletaAprobada

-- The calendar: `date.year`, `date.month`, and the first and the last day of a year.
pub record Calendario : Type 0 where
  pub year : ℕ → ℕ
  pub month : ℕ → ℕ
  pub first_day : ℕ → ℕ
  pub last_day : ℕ → ℕ

abbrev pub is_vigente_contrato : EstadoContrato → Bool
is_vigente_contrato EstadoContrato.vigente = true
is_vigente_contrato _ = false

abbrev pub is_pendiente_solicitud : EstadoSolicitud → Bool
is_pendiente_solicitud EstadoSolicitud.pendiente = true
is_pendiente_solicitud _ = false

-- `in ("PENDIENTE", "APROBADA")`
abbrev pub is_viva : EstadoSolicitud → Bool
is_viva EstadoSolicitud.pendiente = true
is_viva EstadoSolicitud.aprobada = true
is_viva _ = false

-- `tenant`: the company that a request is about.
unfoldable pub user_tenant : User → Option ℕ → Outcome HttpError ℕ
user_tenant user empresa_id = elim user.empresa_id [
  | none ↦ or_raise empresa_id (http 422 "empresa_id es obligatorio para plataforma")
  | some own ↦ elim empresa_id [
    | none ↦ ok own
    | some asked ↦
        if asked == own then ok own else err (http 403 "No puedes operar sobre otra empresa")
  ]
]

abbrev pub trabajador_key : Trabajador → ℕ
trabajador_key t = t.id

-- `employee`
abbrev pub employee : ℕ → ℕ → PersonalDb → Outcome HttpError Trabajador
employee company empleado_id db =
    or_raise
      (find_key trabajador_key empleado_id (λ (t : Trabajador). t.empresa_id == company)
        db.trabajadores)
      (http 404 "Empleado no encontrado")

-- The worker of the account, with the company: `self_employee`.
unfoldable pub own_employee : User → PersonalDb → Outcome HttpError (ℕ × Trabajador)
own_employee user db = do
  company ← or_raise user.empresa_id (http 403 "Se requiere una cuenta de empresa")
  worker ←
      or_raise
        (find_first
          (λ (t : Trabajador). same_key t.usuario_id (some user.id) && t.empresa_id == company)
          db.trabajadores)
        (http 404 "La cuenta no esta asociada a un empleado")
  ok (company, worker)
