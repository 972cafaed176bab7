-- ===== src/Nomina/Rows.antt =====
-- The tables that src/ssas/personal/infrastructure/http/payroll_router.py reads and writes
-- (src/ssas/personal/infrastructure/persistence/models.py), and the exceptions that it raises. Keys
-- are numbers, dates are ordinals, instants are seconds, amounts are ten-thousandths.
use backend_ssas_rrhh.Base.{
  ℕ, Bool, Option, none, some, List, String, ◌==◌, Outcome, ok, err, if◌then◌else◌,
}
use backend_ssas_rrhh.Payroll.Rules.{Rule, PayrollError, PayrollLine}
use backend_ssas_rrhh.Payroll.Calc.{Amounts}

-- `PayrollConfigurationError` and the `ValueError` of the computation, as the computation of a period raises them.
pub data NominaError : Type 0 where
  sin_vigencia_unica sin_porcentaje : String → NominaError
  smn_sin_vigencia_unica smn_invalido contratos_solapados sin_contratos ausencias_pendientes :
      NominaError
  haber_de_mes_completo mes_sin_dias_pagables dias_sin_contrato haber_supera_salario : NominaError
  correcciones_pendientes fichajes_incompletos horas_extra_pendientes autorizacion_invalida :
      NominaError
  falta_rc_iva : NominaError
  calculo : PayrollError → NominaError

-- `HTTPException(status, detail)`; `conflict` is the status 409 with the text of the exception.
pub data HttpException : Type 0 where
  http : ℕ → String → HttpException
  conflict : NominaError → HttpException

-- The user of the request.
pub record CurrentUser : Type 0 where
  pub id : ℕ
  pub empresa_id : Option ℕ

pub record ParametroLegal : Type 0 where
  pub id : ℕ
  pub codigo : String

-- `valor` is a JSON object; its members here are numbers, or numbers written as text.
pub record ParametroValor : Type 0 where
  pub id : ℕ
  pub parametro_id : ℕ
  pub valor : Amounts
  pub vigente_desde : ℕ
  pub vigente_hasta : ℕ
  pub norma_legal : Option String

pub record EstructuraSalarial : Type 0 where
  pub id : ℕ
  pub empresa_id : ℕ
  pub nombre : String
  pub activa : Bool

-- `regla_salarial`, with the columns of the computation in `rule`.
pub record ReglaSalarial : Type 0 where
  pub id : ℕ
  pub empresa_id : ℕ
  pub estructura_id : ℕ
  pub rule : Rule

-- `periodo_nomina.estado`
pub data Estado : Type 0 where
  abierto calculado aprobado : Estado

pub record PeriodoNomina : Type 0 where
  pub id : ℕ
  pub empresa_id : ℕ
  pub gestion : ℕ
  pub mes : ℕ
  pub estado : Estado
  pub calculado_en : Option ℕ
  pub aprobado_en : Option ℕ
  pub aprobado_por_id : Option ℕ

-- `datos_tributarios`: the data of the RC-IVA worksheet, and what a computation adds.
pub record DatosTributarios : Type 0 where
  pub f110_credito : ℕ
  pub saldo_favor_anterior : ℕ
  pub mantenimiento_valor : ℕ
  pub saldo_siete_rg : ℕ
  pub f110_siete_rg : ℕ
  pub saldo_favor_siguiente : Option ℕ
  pub saldo_siete_rg_siguiente : Option ℕ

pub record ImpuestoEmpleado : Type 0 where
  pub id : ℕ
  pub empresa_id : ℕ
  pub periodo_id : ℕ
  pub empleado_id : ℕ
  pub rc_iva_retenido : ℕ
  pub datos_tributarios : Option DatosTributarios
  pub referencia_planilla : String
  pub registrado_por_id : ℕ

pub record HaberProporcional : Type 0 where
  pub id : ℕ
  pub empresa_id : ℕ
  pub periodo_id : ℕ
  pub empleado_id : ℕ
  pub dias_pagados : ℕ
  pub haber_basico_pagado : ℕ
  pub referencia_calculo : String
  pub registrado_por_id : ℕ

pub record Empleado : Type 0 where
  pub id : ℕ
  pub empresa_id : ℕ
  pub usuario_id : Option ℕ

pub record Contrato : Type 0 where
  pub id : ℕ
  pub empresa_id : ℕ
  pub empleado_id : ℕ
  pub salario_basico : ℕ
  pub fecha_inicio : ℕ
  pub fecha_fin : Option ℕ

pub record TipoAusencia : Type 0 where
  pub id : ℕ
  pub empresa_id : ℕ
  pub es_remunerado : Bool

pub record SolicitudAusencia : Type 0 where
  pub empresa_id : ℕ
  pub empleado_id : ℕ
  pub tipo_ausencia_id : ℕ
  pub fecha_inicio : ℕ
  pub fecha_fin : ℕ
  pub estado : String

pub record SolicitudCorreccion : Type 0 where
  pub empresa_id : ℕ
  pub fecha : ℕ
  pub estado : String

pub record Asistencia : Type 0 where
  pub id : ℕ
  pub empresa_id : ℕ
  pub empleado_id : ℕ
  pub fecha : ℕ
  pub hora_salida : Option ℕ
  pub horas_extra : ℕ

pub record AutorizacionHorasExtra : Type 0 where
  pub empresa_id : ℕ
  pub asistencia_id : ℕ
  pub horas_solicitadas : ℕ
  pub estado : String
  pub monto_autorizado : Option ℕ

pub record BoletaDetalle : Type 0 where
  pub empresa_id : ℕ
  pub boleta_id : ℕ
  pub regla_id : Option ℕ
  pub line : PayrollLine

pub record BoletaPago : Type 0 where
  pub id : ℕ
  pub empresa_id : ℕ
  pub periodo_id : ℕ
  pub empleado_id : ℕ
  pub contrato_id : ℕ
  pub dias_trabajados : ℕ
  pub salario_basico : ℕ
  pub total_ganado : ℕ
  pub total_descuentos : ℕ
  pub liquido_pagable : ℕ
  pub total_aportes_patronales : ℕ

pub record NominaDb : Type 0 where
  pub parametros : List ParametroLegal
  pub valores : List ParametroValor
  pub estructuras : List EstructuraSalarial
  pub reglas : List ReglaSalarial
  pub periodos : List PeriodoNomina
  pub impuestos : List ImpuestoEmpleado
  pub haberes : List HaberProporcional
  pub empleados : List Empleado
  pub contratos : List Contrato
  pub tipos_ausencia : List TipoAusencia
  pub ausencias : List SolicitudAusencia
  pub correcciones : List SolicitudCorreccion
  pub asistencias : List Asistencia
  pub autorizaciones : List AutorizacionHorasExtra
  pub boletas : List BoletaPago
  pub detalles : List BoletaDetalle

-- `tenant` of src/ssas/personal/infrastructure/http/router.py: the company that a request is about.
unfoldable pub tenant : CurrentUser → Option ℕ → Outcome HttpException ℕ
tenant user empresa_id = elim user.empresa_id [
  | some own ↦ elim empresa_id [
    | none ↦ ok own
    | some asked ↦
        if asked == own
        then ok own
        else err (HttpException.http 403 "No puedes operar sobre otra empresa")
  ]
  | none ↦ elim empresa_id [
    | none ↦ err (HttpException.http 422 "empresa_id es obligatorio para plataforma")
    | some asked ↦ ok asked
  ]
]
