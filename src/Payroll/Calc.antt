-- ===== src/Payroll/Calc.antt =====
-- `calculate_payroll` of src/ssas/personal/application/payroll.py.
use backend_ssas_rrhh.Base.{
  ℕ, ◌+◌, ◌-◌, ◌*◌, Bool, true, false, not, ◌&&◌, ◌||◌, Option, none, some, List, [], ◌∷◌, ◌++◌,
  String, str_eq, member, ltb, leb, is_some, Outcome, ok, err, ◌>>=◌, ◌>>◌, raise_if, or_raise,
  if◌then◌else◌,
}
use backend_ssas_rrhh.Base.Int.{ℤ, pos, negsuc}
use backend_ssas_rrhh.Money.{one, quantize, quantize_ratio, positive}
use backend_ssas_rrhh.Payroll.Rules.{
  Tipo, TipoCalculo, BaseCalculo, Rule, PayrollError, PayrollLine, PayrollResult, Date, ordinal,
}

-- A Python dict with text keys, read by `in` and `[]`.
abbrev pub Amounts : Type 0
Amounts = List (String × ℤ)

unfoldable pub lookup : String → Amounts → Option ℤ
lookup k [] = none
lookup k ((j, v) ∷ m) = if str_eq j k then some v else lookup k m

-- `ANS_EFFECTIVE_FROM`
abbrev pub ans_effective_from : Date
ans_effective_from = record { year = 2024; month = 10; day = 1 }

-- `ANS_BRACKETS`: threshold and rate in per cent, both in ten-thousandths.
abbrev pub ans_brackets : List (ℕ × ℕ)
ans_brackets = (13000 * one, 11500) ∷ (25000 * one, 57400) ∷ (35000 * one, 114800) ∷ []

-- The sum over the brackets of `max(gross - threshold, 0) * rate`.
unfoldable pub ans_sum : ℕ → List (ℕ × ℕ) → ℕ
ans_sum gross [] = 0
ans_sum gross ((threshold, rate) ∷ rest) = (gross - threshold) * rate + ans_sum gross rest

unfoldable pub ans_amount : ℕ → ℕ
ans_amount gross = quantize_ratio (ans_sum gross ans_brackets) (100 * one)

-- The local variables of the loop over the rules: `lines`, `totals`, `seen`, `ans_rule`.
pub record Totals : Type 0 where
  pub lines : List PayrollLine
  pub ingreso : ℕ
  pub descuento : ℕ
  pub patronal : ℕ
  pub seen : List String
  pub ans_rule : Option Rule

abbrev pub no_totals : Totals
no_totals = record {
  lines = [];
  ingreso = 0;
  descuento = 0;
  patronal = 0;
  seen = [];
  ans_rule = none;
}

-- `sorted(rules, key=lambda item: item.secuencia)`, which is stable.
abbrev pub insert_rule : Rule → List Rule → List Rule
insert_rule r [] = r ∷ []
insert_rule r (q ∷ rest) =
    if leb r.secuencia q.secuencia then r ∷ q ∷ rest else q ∷ insert_rule r rest

unfoldable pub sort_rules : List Rule → List Rule
sort_rules [] = []
sort_rules (r ∷ rest) = insert_rule r (sort_rules rest)

-- `rule.tipo in totals`
abbrev pub is_known : Tipo → Bool
is_known (Tipo.otro _) = false
is_known _ = true

-- A text that is neither `None` nor empty.
abbrev pub truthy : Option String → Option String
truthy none = none
truthy (some s) = if str_eq s "" then none else some s

-- `0 <= rate <= 100`, with the rate.
unfoldable pub valid_rate : ℤ → Option ℕ
valid_rate (pos n) = if leb n (100 * one) then some n else none
valid_rate (negsuc n) = none

-- The arguments that the loop reads.
pub record Inputs : Type 0 where
  pub base_salary : ℕ
  pub parameters : Amounts
  pub external_amounts : Option Amounts

unfoldable pub basis_of : Inputs → Totals → Rule → Outcome PayrollError ℕ
basis_of x t r = elim r.base_calculo [
  | some b ↦ elim b [
    | BaseCalculo.salario_basico ↦ ok x.base_salary
    | BaseCalculo.total_ganado ↦ ok t.ingreso
    | BaseCalculo.otra _ ↦ err (PayrollError.base_no_admitida r.codigo)
  ]
  | none ↦ err (PayrollError.base_no_admitida r.codigo)
]

-- `PORCENTAJE`: basis times rate over a hundred.
unfoldable pub percentage_amount : Inputs → Totals → Rule → Outcome PayrollError (ℤ × ℕ)
percentage_amount x t r = do
  code ← or_raise (truthy r.parametro_codigo) (PayrollError.falta_parametro r.codigo)
  given ← or_raise (lookup code x.parameters) (PayrollError.falta_parametro r.codigo)
  rate ← or_raise (valid_rate given) (PayrollError.porcentaje_invalido r.codigo)
  basis ← basis_of x t r
  ok (pos (basis * rate), 100 * one)

-- `EXTERNO`: an amount that the caller supplies.
unfoldable pub external_amount : Inputs → Rule → Outcome PayrollError (ℤ × ℕ)
external_amount x r = do
  given ← or_raise x.external_amounts (PayrollError.falta_importe r.codigo)
  amount ← or_raise (lookup r.codigo given) (PayrollError.falta_importe r.codigo)
  ok (amount, 1)

-- The amount of a rule before it is rounded, as a quotient of units.
unfoldable pub rule_amount : Inputs → Totals → Rule → Outcome PayrollError (ℤ × ℕ)
rule_amount x t r = elim r.tipo_calculo [
  | TipoCalculo.base ↦ ok (pos x.base_salary, 1)
  | TipoCalculo.fijo ↦ elim r.monto_fijo [
    | some m ↦ ok (m, 1)
    | none ↦ err (PayrollError.tipo_calculo_no_admitido r.codigo)
  ]
  | TipoCalculo.externo ↦ external_amount x r
  | TipoCalculo.porcentaje ↦ percentage_amount x t r
  | _ ↦ err (PayrollError.tipo_calculo_no_admitido r.codigo)
]

-- `if amount < 0: raise`
abbrev pub nonnegative : ℤ → Outcome PayrollError ℕ
nonnegative (pos n) = ok n
nonnegative (negsuc n) = err PayrollError.monto_negativo

-- `totals[rule.tipo] += amount; lines.append(PayrollLine(...))`
unfoldable pub add_line : Totals → Tipo → PayrollLine → Totals
add_line t Tipo.ingreso l = record t { lines = t.lines ++ l ∷ []; ingreso = t.ingreso + l.amount }
add_line t Tipo.descuento l = record t {
  lines = t.lines ++ l ∷ [];
  descuento = t.descuento + l.amount;
}
add_line t Tipo.patronal l = record t {
  lines = t.lines ++ l ∷ [];
  patronal = t.patronal + l.amount;
}
add_line t (Tipo.otro _) l = record t { lines = t.lines ++ l ∷ [] }

-- `rule.tipo == "DESCUENTO" and rule.tipo_calculo == "TRAMOS_ANS_BO"`
abbrev pub is_ans_rule : Tipo → TipoCalculo → Bool
is_ans_rule Tipo.descuento TipoCalculo.tramos_ans_bo = true
is_ans_rule _ _ = false

-- A rule other than ANS: its amount, rounded and checked, becomes a line.
unfoldable pub post_rule : Inputs → Totals → Rule → Outcome PayrollError Totals
post_rule x t r = do
  raw ← rule_amount x t r
  amount ← nonnegative (quantize raw.0 raw.1)
  ok (
      add_line t r.tipo
        (record { code = r.codigo; name = r.nombre; kind = r.tipo; amount = amount }))

-- One pass of the loop.
unfoldable pub apply_rule : Inputs → Totals → Rule → Outcome PayrollError Totals
apply_rule x t r =
    if not r.activa
    then ok t
    else if member r.codigo t.seen || not (is_known r.tipo)
    then err PayrollError.reglas_duplicadas_o_invalidas
    else if str_eq r.codigo "ANS"
    then (if is_ans_rule r.tipo r.tipo_calculo
        then ok (record t { seen = r.codigo ∷ t.seen; ans_rule = some r })
        else err PayrollError.ans_mal_configurado)
    else post_rule x (record t { seen = r.codigo ∷ t.seen }) r

unfoldable pub apply_rules : Inputs → Totals → List Rule → Outcome PayrollError Totals
apply_rules x t [] = ok t
apply_rules x t (r ∷ rest) = apply_rule x t r >>= λ t'. apply_rules x t' rest

-- `period_end is None or period_end < ANS_EFFECTIVE_FROM`
unfoldable pub before_ans : Option Date → Bool
before_ans none = true
before_ans (some d) = ltb (ordinal d) (ordinal ans_effective_from)

-- `totals["DESCUENTO"] += ans_amount; lines.append(...)`
unfoldable pub add_ans : Totals → Rule → Totals
add_ans t r = record t {
  descuento = t.descuento + ans_amount t.ingreso;
  lines =
      t.lines
      ++ record {
        code = "ANS";
        name = r.nombre;
        kind = Tipo.descuento;
        amount = ans_amount t.ingreso;
      }
        ∷ [];
}

-- The block `if ans_rule is not None`.
unfoldable pub post_ans : Option Date → Totals → Outcome PayrollError Totals
post_ans period_end t = elim t.ans_rule [
  | none ↦ ok t
  | some r ↦ if before_ans period_end then err PayrollError.falta_vigencia_ans else ok (add_ans t r)
]

-- The value of the `return`.
abbrev pub result_of : Totals → PayrollResult
result_of u = record {
  lines = u.lines;
  gross = u.ingreso;
  deductions = u.descuento;
  net = u.ingreso - u.descuento;
  employer_contributions = u.patronal;
}

-- The checks after the loop, and the result.
unfoldable pub close_payroll : Option Date → Totals → Outcome PayrollError PayrollResult
close_payroll period_end t = do
  raise_if (not (member "SALARIO_BASICO" t.seen)) PayrollError.falta_salario_basico
  raise_if (ltb (13000 * one) t.ingreso && not (is_some t.ans_rule)) PayrollError.falta_ans
  u ← post_ans period_end t
  raise_if (ltb u.ingreso u.descuento) PayrollError.descuentos_superan
  ok (result_of u)

unfoldable pub calculate_payroll :
    ℤ → List Rule → Amounts → Option Amounts → Option Date → Outcome PayrollError PayrollResult
calculate_payroll base_salary rules parameters external_amounts period_end = do
  salary ← or_raise (positive base_salary) PayrollError.salario_no_positivo
  t ←
      apply_rules
        (record {
          base_salary = salary;
          parameters = parameters;
          external_amounts = external_amounts;
        })
        no_totals (sort_rules rules)
  close_payroll period_end t
