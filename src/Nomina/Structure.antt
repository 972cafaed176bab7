-- ===== src/Nomina/Structure.antt =====
-- `add_salary_rule` of src/ssas/personal/infrastructure/http/payroll_router.py. The schema's texts are
-- those of `Rule`; a new rule is active.
use backend_ssas_rrhh.Base.{
  ℕ, Bool, true, false, not, ◌&&◌, ◌||◌, Option, none, some, str_eq, ◌==◌, is_some, find_first,
  add_row, Outcome, ok, ◌>>=◌, ◌>>◌, raise_if,
}
use backend_ssas_rrhh.Session.{Handler}
use backend_ssas_rrhh.Payroll.Rules.{Rule, Tipo, TipoCalculo, BaseCalculo}
use backend_ssas_rrhh.Payroll.Calc.{truthy, is_known}
use backend_ssas_rrhh.Nomina.Rows.{
  HttpException, http, CurrentUser, EstructuraSalarial, ReglaSalarial, NominaDb, tenant,
}

abbrev pub is_ingreso : Tipo → Bool
is_ingreso Tipo.ingreso = true
is_ingreso _ = false

abbrev pub is_descuento : Tipo → Bool
is_descuento Tipo.descuento = true
is_descuento _ = false

abbrev pub is_externo : TipoCalculo → Bool
is_externo TipoCalculo.externo = true
is_externo _ = false

abbrev pub is_tramos : TipoCalculo → Bool
is_tramos TipoCalculo.tramos_ans_bo = true
is_tramos _ = false

abbrev pub is_base : TipoCalculo → Bool
is_base TipoCalculo.base = true
is_base _ = false

abbrev pub is_fijo : TipoCalculo → Bool
is_fijo TipoCalculo.fijo = true
is_fijo _ = false

abbrev pub is_porcentaje : TipoCalculo → Bool
is_porcentaje TipoCalculo.porcentaje = true
is_porcentaje _ = false

-- `tipo_calculo` is one of the five that are admitted.
abbrev pub is_admitted : TipoCalculo → Bool
is_admitted (TipoCalculo.otro _) = false
is_admitted _ = true

-- `base_calculo in {"SALARIO_BASICO", "TOTAL_GANADO"}`
abbrev pub is_basis : Option BaseCalculo → Bool
is_basis none = false
is_basis (some (BaseCalculo.otra _)) = false
is_basis (some _) = true

-- `a != b`, of two tests.
abbrev pub differ : Bool → Bool → Bool
differ true b = not b
differ false b = b

-- The checks of the payload, in order.
unfoldable pub check_rule : Rule → Outcome HttpException (Unit {0})
check_rule r = do
  let is_ans = str_eq r.codigo "ANS"
  let is_rc_iva = str_eq r.codigo "RC_IVA"
  let is_overtime = str_eq r.codigo "HORAS_EXTRA"
  raise_if (not (is_known r.tipo)) (http 422 "Tipo de regla no admitido")
  raise_if (not (is_admitted r.tipo_calculo)) (http 422 "Tipo de calculo no admitido")
  raise_if (differ is_ans (is_tramos r.tipo_calculo)) (http 422 "ANS requiere calculo por tramos")
  raise_if (is_ans && not (is_descuento r.tipo)) (http 422 "ANS debe ser un descuento")
  raise_if (is_base r.tipo_calculo && not (str_eq r.codigo "SALARIO_BASICO"))
      (http 422 "BASE solo corresponde al salario basico")
  raise_if (is_fijo r.tipo_calculo && not (is_some r.monto_fijo)) (http 422 "Falta el monto fijo")
  raise_if
      (is_porcentaje r.tipo_calculo
        && (not (is_some (truthy r.parametro_codigo)) || not (is_basis r.base_calculo)))
      (http 422 "Falta el parametro legal o la base")
  raise_if (is_rc_iva && (not (is_externo r.tipo_calculo) || not (is_descuento r.tipo)))
      (http 422 "RC-IVA debe provenir de la planilla tributaria verificada")
  raise_if (is_externo r.tipo_calculo && not (is_rc_iva || is_overtime))
      (http 422 "Solo RC-IVA y HORAS_EXTRA admiten importe externo")
  raise_if (is_overtime && (not (is_externo r.tipo_calculo) || not (is_ingreso r.tipo)))
      (http 422 "HORAS_EXTRA requiere un importe autorizado por RRHH")

abbrev pub structure_of : ℕ → NominaDb → Option EstructuraSalarial
structure_of company db = find_first (λ s. s.empresa_id == company && s.activa) db.estructuras

-- The active structure of the company, which is created where there is none.
unfoldable pub ensure_structure : ℕ → ℕ → NominaDb → EstructuraSalarial × NominaDb
ensure_structure company new_id db = elim (structure_of company db) [
  | some s ↦ (s, db)
  | none ↦
      let s : EstructuraSalarial = record {
        id = new_id;
        empresa_id = company;
        nombre = "Nomina general";
        activa = true;
      } in
      (s, record db { estructuras = add_row s db.estructuras })
]

-- A rule of the structure has the code or the position.
abbrev pub is_taken : ℕ → Rule → ReglaSalarial → Bool
is_taken estructura_id r q =
    q.estructura_id == estructura_id
    && (str_eq q.rule.codigo r.codigo || q.rule.secuencia == r.secuencia)

abbrev pub new_regla : ℕ → ℕ → ℕ → Rule → ReglaSalarial
new_regla new_id company estructura_id r = record {
  id = new_id;
  empresa_id = company;
  estructura_id = estructura_id;
  rule = record r { activa = true };
}

-- The end of the endpoint, once the structure is known.
unfoldable pub insert_regla : ℕ → ℕ → Rule → ℕ → Handler NominaDb HttpException ReglaSalarial
insert_regla new_id company r estructura_id db = do
  raise_if (is_some (find_first (is_taken estructura_id r) db.reglas))
      (http 409 "Codigo o secuencia ya utilizado")
  ok (
    new_regla new_id company estructura_id r,
    record db { reglas = add_row (new_regla new_id company estructura_id r) db.reglas },
  )

unfoldable pub add_salary_rule :
    CurrentUser → Option ℕ → ℕ → ℕ → Rule → Handler NominaDb HttpException ReglaSalarial
add_salary_rule user empresa_id new_structure_id new_id r db = do
  company ← tenant user empresa_id
  check_rule r
  let (s, db') = ensure_structure company new_structure_id db
  insert_regla new_id company r s.id db'
