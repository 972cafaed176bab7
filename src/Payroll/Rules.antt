-- ===== src/Payroll/Rules.antt =====
-- The data of src/ssas/personal/application/payroll.py: rules, lines, results, exceptions, and the
-- dates that it compares. A text that the code compares with constants is a data type with one
-- constructor for each constant and `otro` for any other text.
use backend_ssas_rrhh.Base.{
  ℕ, ◌+◌, ◌-◌, ◌*◌, ◌/◌, ◌%◌, Bool, ◌&&◌, ◌||◌, not, Option, List, String, ◌==◌, if◌then◌else◌,
}
use backend_ssas_rrhh.Base.Int.{ℤ}

-- `regla_salarial.tipo`
pub data Tipo : Type 0 where
  ingreso descuento patronal : Tipo
  otro : String → Tipo

-- `regla_salarial.tipo_calculo`
pub data TipoCalculo : Type 0 where
  base fijo externo porcentaje tramos_ans_bo : TipoCalculo
  otro : String → TipoCalculo

-- `regla_salarial.base_calculo`
pub data BaseCalculo : Type 0 where
  salario_basico total_ganado : BaseCalculo
  otra : String → BaseCalculo

-- The columns of a salary rule that the computation reads.
pub record Rule : Type 0 where
  pub codigo : String
  pub nombre : String
  pub tipo : Tipo
  pub secuencia : ℕ
  pub tipo_calculo : TipoCalculo
  pub monto_fijo : Option ℤ
  pub base_calculo : Option BaseCalculo
  pub parametro_codigo : Option String
  pub activa : Bool

-- `PayrollConfigurationError`, one constructor for each message.
pub data PayrollError : Type 0 where
  salario_o_periodo_invalido un_unico_mes contrato_no_cubre rango_ausencia_invalido : PayrollError
  hora_extra_invalida hora_extra_cero : PayrollError
  salario_no_positivo reglas_duplicadas_o_invalidas ans_mal_configurado : PayrollError
  falta_importe falta_parametro porcentaje_invalido base_no_admitida : String → PayrollError
  tipo_calculo_no_admitido : String → PayrollError
  monto_negativo falta_salario_basico falta_ans falta_vigencia_ans : PayrollError
  descuentos_superan : PayrollError
  rc_iva_periodo rc_iva_importes rc_iva_aportes : PayrollError
  -- `decimal.InvalidOperation`, raised by an order test of a NaN; not a configuration error
  invalid_operation : PayrollError

-- `PayrollLine`; the amount is checked not to be negative before the line is built.
pub record PayrollLine : Type 0 where
  pub code : String
  pub name : String
  pub kind : Tipo
  pub amount : ℕ

-- `PayrollResult`
pub record PayrollResult : Type 0 where
  pub lines : List PayrollLine
  pub gross : ℕ
  pub deductions : ℕ
  pub net : ℕ
  pub employer_contributions : ℕ

-- `datetime.date`
pub record Date : Type 0 where
  pub year : ℕ
  pub month : ℕ
  pub day : ℕ

-- `calendar.isleap`
unfoldable pub is_leap : ℕ → Bool
is_leap y = y % 4 == 0 && (not (y % 100 == 0) || y % 400 == 0)

-- `calendar.monthrange(y, m)[1]`
unfoldable pub days_in_month : ℕ → ℕ → ℕ
unfolding is_leap
days_in_month y m =
    if m == 2
    then (if is_leap y then 29 else 28)
    else if m == 4 || m == 6 || m == 9 || m == 11
    then 30
    else 31

days_before_month : ℕ → ℕ → ℕ
unfolding days_in_month
days_before_month y ℕ.zero = 0
days_before_month y (ℕ.suc m) = if m == 0 then 0 else days_before_month y m + days_in_month y m

-- `d.toordinal()`: dates are compared by it.
unfoldable pub ordinal : Date → ℕ
unfolding days_before_month
ordinal d =
    let y = d.year - 1 in
    y * 365 + y / 4 - y / 100 + y / 400 + days_before_month d.year d.month + d.day
