-- ===== src/Reclutamiento/Rows.antt =====
-- The tables of recruitment (src/ssas/vacantes/infrastructure/persistence/models,
-- src/ssas/postulaciones/infrastructure/persistence/models, and those of entrevistas, evaluaciones,
-- postulantes and empleados), with the columns that the operations read or write. Keys are numbers,
-- instants are seconds, scores are hundredths.
use backend_ssas_rrhh.Base.{ℕ, Bool, true, false, Option, List, String}
use backend_ssas_rrhh.Auth.Text.{Text}
use backend_ssas_rrhh.Suscripciones.{PlanDb}

-- `ck_vacante_estado`
pub data EstadoVacante : Type 0 where
  borrador publicada pausada cerrada cancelada : EstadoVacante

-- `ck_postulacion_estado`
pub data EstadoPostulacion : Type 0 where
  activa retirada descartada contratada : EstadoPostulacion

-- `ck_entrevista_estado`
pub data EstadoEntrevista : Type 0 where
  programada confirmada realizada cancelada : EstadoEntrevista

-- `ck_entrevista_modalidad`
pub data Modalidad : Type 0 where
  virtual presencial telefonica : Modalidad

pub record Vacante : Type 0 where
  pub id : ℕ
  pub empresa_id : ℕ
  pub cargo_id : ℕ
  pub departamento_id : ℕ
  pub responsable_id : ℕ
  pub titulo : String
  pub cantidad_vacantes : ℕ
  pub fecha_publicacion : Option ℕ
  pub fecha_cierre : Option ℕ
  pub estado : EstadoVacante

pub record VacanteHabilidad : Type 0 where
  pub vacante_id : ℕ
  pub habilidad_id : ℕ

pub record Postulacion : Type 0 where
  pub id : ℕ
  pub vacante_id : ℕ
  pub postulante_id : ℕ
  pub etapa_id : ℕ
  pub motivo_rechazo_id : Option ℕ
  pub empleado_id : Option ℕ
  pub estado : EstadoPostulacion
  pub puntaje_manual : Option ℕ
  pub codigo_seguimiento : String
  pub fecha_ultimo_cambio : ℕ

pub record Postulante : Type 0 where
  pub id : ℕ
  pub empresa_id : ℕ
  pub nombres : String
  pub apellidos : String
  pub ci : String
  pub email : String
  pub telefono : String
  pub ciudad : String
  pub cv_url : Option String
  pub en_banco_talento : Bool

pub record Entrevista : Type 0 where
  pub id : ℕ
  pub postulacion_id : ℕ
  pub entrevistador_id : ℕ
  pub tipo : String
  pub fecha_hora : ℕ
  pub duracion_min : ℕ
  pub modalidad : Modalidad
  pub enlace_reunion : Text
  pub lugar : Text
  pub estado : EstadoEntrevista
  pub puntaje : Option ℕ
  pub observaciones : Option String
  pub recomendacion : Option String

pub record Evaluacion : Type 0 where
  pub id : ℕ
  pub postulacion_id : ℕ
  pub evaluador_id : ℕ
  pub tipo : String
  pub nombre : String
  pub puntaje : ℕ
  pub puntaje_maximo : ℕ
  pub aprobado : Bool
  pub observaciones : String

pub record Empleado : Type 0 where
  pub id : ℕ
  pub empresa_id : ℕ
  pub codigo : String
  pub nombres : String
  pub apellido_paterno : String
  pub apellido_materno : String
  pub ci : String
  pub ci_expedido : String
  pub telefono : String
  pub email_personal : String
  pub fecha_ingreso : ℕ
  pub estado : String

pub record EtapaReclutamiento : Type 0 where
  pub id : ℕ
  pub empresa_id : ℕ
  pub orden : ℕ
  pub es_inicial : Bool
  pub es_contratado : Bool
  pub es_rechazado : Bool

-- A row of a catalogue of the company: `motivo_rechazo`, `habilidad`, `cargo`, `departamento`.
pub record Catalogo : Type 0 where
  pub id : ℕ
  pub empresa_id : ℕ
  pub activo : Bool

pub record Usuario : Type 0 where
  pub id : ℕ
  pub empresa_id : Option ℕ
  pub is_active : Bool
  pub eliminado_at : Option ℕ
  pub created_at : ℕ

pub record Empresa : Type 0 where
  pub id : ℕ
  pub activo : Bool
  pub eliminado_at : Option ℕ

-- `plan` holds the subscriptions and what else they limit.
pub record ReclutamientoDb : Type 0 where
  pub vacantes : List Vacante
  pub vacante_habilidades : List VacanteHabilidad
  pub postulaciones : List Postulacion
  pub postulantes : List Postulante
  pub entrevistas : List Entrevista
  pub evaluaciones : List Evaluacion
  pub empleados : List Empleado
  pub etapas : List EtapaReclutamiento
  pub motivos : List Catalogo
  pub habilidades : List Catalogo
  pub cargos : List Catalogo
  pub departamentos : List Catalogo
  pub usuarios : List Usuario
  pub empresas : List Empresa
  pub plan : PlanDb

abbrev pub is_borrador : EstadoVacante → Bool
is_borrador EstadoVacante.borrador = true
is_borrador _ = false

abbrev pub is_publicada : EstadoVacante → Bool
is_publicada EstadoVacante.publicada = true
is_publicada _ = false

abbrev pub is_pausada : EstadoVacante → Bool
is_pausada EstadoVacante.pausada = true
is_pausada _ = false

abbrev pub is_cerrada : EstadoVacante → Bool
is_cerrada EstadoVacante.cerrada = true
is_cerrada _ = false

abbrev pub is_activa : EstadoPostulacion → Bool
is_activa EstadoPostulacion.activa = true
is_activa _ = false

abbrev pub is_contratada : EstadoPostulacion → Bool
is_contratada EstadoPostulacion.contratada = true
is_contratada _ = false

abbrev pub is_programada : EstadoEntrevista → Bool
is_programada EstadoEntrevista.programada = true
is_programada _ = false

-- `in {"PROGRAMADA", "CONFIRMADA"}`
abbrev pub is_pendiente : EstadoEntrevista → Bool
is_pendiente EstadoEntrevista.programada = true
is_pendiente EstadoEntrevista.confirmada = true
is_pendiente _ = false
