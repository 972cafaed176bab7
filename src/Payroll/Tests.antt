-- ===== src/Payroll/Tests.antt =====
-- Runs of the payroll arithmetic, after src/tests/unit/test_personal_payroll.py, and instances of
-- its theorems.
use backend_ssas_rrhh.Base.{
  ℕ, ◌+◌, ◌-◌, ◌*◌, ◌++◌, ◌≤◌, ◌<◌, ◌≡◌, refl, true, false, none, some, List, [], ◌∷◌, String, ok,
  arith,
}
use backend_ssas_rrhh.Base.Int.{pos}
use backend_ssas_rrhh.Money.{finite, one, positive, quantize, quantize_ratio, money, round_half_up}
use backend_ssas_rrhh.Payroll.Rules.{
  Tipo, TipoCalculo, BaseCalculo, Rule, PayrollResult, PayrollLine, Date, ordinal, days_in_month,
}
use backend_ssas_rrhh.Payroll.Calc.{
  Amounts, calculate_payroll, lookup, sort_rules, valid_rate, basis_of, percentage_amount,
  rule_amount, add_line, post_rule, apply_rule, apply_rules, before_ans, ans_sum, ans_amount,
  add_ans, post_ans, close_payroll,
}
use backend_ssas_rrhh.Payroll.Balance.{IsClosed, calculate_payroll-IsClosed}
use backend_ssas_rrhh.Payroll.Proration.{
  ProrationSuggestion, suggest_calendar_proration, checked_prorate, prorate, unpaid_dates,
  covered_days, calculate_ordinary_overtime, finite_positive,
}
use backend_ssas_rrhh.Payroll.Proration.Days.{
  IsFair, suggest_calendar_proration-IsFair, calculate_ordinary_overtime_near,
}
use backend_ssas_rrhh.Payroll.RcIva.{
  Worksheet, RcIvaResult, calculate_rc_iva, amount_of, apply_credits, tax_after_smn,
  tax_before_credits, taxable_income,
}
use backend_ssas_rrhh.Money.Laws.{IsCents}
use backend_ssas_rrhh.Payroll.Credits.{
  on_worksheet, CreditsInCents, calculate_rc_iva_conserves, calculate_rc_iva_mono,
}
use backend_ssas_rrhh.Payroll.Ans.{ans_amount_scale, calculate_payroll_ans}

ordinal_2024 : ordinal (record { year = 2024; month = 10; day = 1 }) ≡ 739160
unfolding ordinal days_in_month
ordinal_2024 = refl

ordinal_leap : ordinal (record { year = 2024; month = 2; day = 29 }) ≡ 738945
unfolding ordinal days_in_month
ordinal_leap = refl

-- The worksheet of the tax office: 18 000 earned, a minimum wage of 2 750.
abbrev sin_example : Worksheet
sin_example = record {
  total_earned = 18000 * one;
  labor_contributions = 0;
  minimum_wage = 2750 * one;
  f110_credit = 100 * one;
  prior_credit = 700 * one;
  prior_credit_maintenance = one;
  prior_siete_rg = 0;
  f110_siete_rg = 0;
}

abbrev june_2025 : Date
june_2025 = record { year = 2025; month = 6; day = 30 }

abbrev sin_result : RcIvaResult
sin_result = record {
  withheld = 4665000;
  next_credit = 0;
  next_siete_rg = 0;
  taxable_income = 12500 * one;
  tax_before_credits = 1625 * one;
}

sin_run : on_worksheet june_2025 sin_example ≡ ok sin_result
unfolding calculate_rc_iva amount_of apply_credits tax_after_smn tax_before_credits taxable_income
    money quantize_ratio ordinal days_in_month
sin_run = refl

sin_credits : CreditsInCents sin_example
sin_credits = record {
  f110 = (10000, refl);
  prior = (70000, refl);
  maintenance = (100, refl);
  siete = (0, refl);
  f110_siete = (0, refl);
}

calculate_rc_iva_conserves_example :
    (sin_result.withheld + 100 * one + (700 * one + one) + (0 + 0)
      ≡ tax_after_smn sin_example + 0 + 0)
    × (sin_result.withheld ≤ tax_after_smn sin_example)
    × (0 < sin_result.withheld → (sin_result.next_credit ≡ 0) × (sin_result.next_siete_rg ≡ 0))
calculate_rc_iva_conserves_example =
    calculate_rc_iva_conserves june_2025 sin_example sin_result sin_run sin_credits

calculate_rc_iva_mono_example : sin_result.withheld ≤ sin_result.withheld
calculate_rc_iva_mono_example =
    calculate_rc_iva_mono june_2025 sin_example (18000 * one) sin_result sin_result (omega arith)
      sin_run sin_run

abbrev no_rule : Rule
no_rule = record {
  codigo = "SALARIO_BASICO";
  nombre = "Salario basico";
  tipo = Tipo.ingreso;
  secuencia = 10;
  tipo_calculo = TipoCalculo.base;
  monto_fijo = none;
  base_calculo = none;
  parametro_codigo = none;
  activa = true;
}

abbrev rules : List Rule
rules =
    record no_rule {
      codigo = "ANS";
      nombre = "ANS";
      tipo = Tipo.descuento;
      secuencia = 35;
      tipo_calculo = TipoCalculo.tramos_ans_bo;
    }
    ∷ record no_rule {
      codigo = "AFP";
      nombre = "AFP";
      tipo = Tipo.descuento;
      secuencia = 20;
      tipo_calculo = TipoCalculo.porcentaje;
      base_calculo = some BaseCalculo.total_ganado;
      parametro_codigo = some "AFP_LABORAL_BO";
    }
    ∷ no_rule
    ∷ []

abbrev rates : Amounts
rates = ("AFP_LABORAL_BO", pos 127100) ∷ []

abbrev october : Date
october = record { year = 2024; month = 10; day = 31 }

abbrev payslip : PayrollResult
payslip = record {
  lines =
      record {
        code = "SALARIO_BASICO";
        name = "Salario basico";
        kind = Tipo.ingreso;
        amount = 20000 * one;
      }
      ∷ record { code = "AFP"; name = "AFP"; kind = Tipo.descuento; amount = 2542 * one }
      ∷ record { code = "ANS"; name = "ANS"; kind = Tipo.descuento; amount = 805000 }
      ∷ [];
  gross = 20000 * one;
  deductions = 26225000;
  net = 173775000;
  employer_contributions = 0;
}

payroll_run : calculate_payroll (pos (20000 * one)) rules rates none (some october) ≡ ok payslip
unfolding calculate_payroll positive sort_rules apply_rules apply_rule post_rule rule_amount
    percentage_amount basis_of valid_rate lookup quantize quantize_ratio round_half_up add_line
    close_payroll post_ans add_ans ans_amount ans_sum before_ans ordinal days_in_month
payroll_run = refl

calculate_payroll-IsClosed_example : IsClosed payslip
calculate_payroll-IsClosed_example =
    calculate_payroll-IsClosed (pos (20000 * one)) rules rates none (some october) payslip
      payroll_run

abbrev april_1 : Date
april_1 = record { year = 2026; month = 4; day = 1 }

abbrev april_30 : Date
april_30 = record { year = 2026; month = 4; day = 30 }

-- A contract that begins on the 16th, with one unpaid day.
abbrev half_april : ProrationSuggestion
half_april = record { paid_days = 14; calendar_days = 30; unpaid_days = 1; basic_pay = 1400 * one }

abbrev april_16 : ℕ
april_16 = 739722

proration_run :
    suggest_calendar_proration
      (pos (3000 * one))
      april_1
      april_30
      april_16
      none
      ((april_16 + 2, april_16 + 2) ∷ [])
    ≡ ok half_april
unfolding suggest_calendar_proration checked_prorate prorate unpaid_dates positive quantize_ratio
    ordinal days_in_month
proration_run = refl

suggest_calendar_proration-IsFair_example :
    IsFair
      (3000 * one)
      (covered_days april_1 april_30 april_16 none)
      (ordinal april_30 - ordinal april_1 + 1)
      half_april
suggest_calendar_proration-IsFair_example =
    suggest_calendar_proration-IsFair (3000 * one) april_1 april_30 april_16 none
      ((april_16 + 2, april_16 + 2) ∷ []) half_april proration_run

-- Two extra hours of a salary of 2 400 at eight hours a day: 40.00.
overtime_run :
    calculate_ordinary_overtime
      (finite (pos (2400 * one)))
      (finite (pos (8 * one)))
      (finite (pos (2 * one)))
    ≡ ok (40 * one)
unfolding calculate_ordinary_overtime finite_positive positive quantize_ratio round_half_up
overtime_run = refl

calculate_ordinary_overtime_near_example :
    (0 < 40 * one)
    × IsCents (40 * one)
    × (8 * one ≤ 8 * one)
    × (40 * one * (30 * (8 * one)) ≤ 2400 * one * (2 * one) * 2 + 50 * (30 * (8 * one)))
    × (2400 * one * (2 * one) * 2 < 40 * one * (30 * (8 * one)) + 50 * (30 * (8 * one)))
calculate_ordinary_overtime_near_example =
    calculate_ordinary_overtime_near (2400 * one) (8 * one) (2 * one) (40 * one) overtime_run

ans_amount_scale_example :
    (ans_amount (20000 * one) ≤ ans_amount (30000 * one))
    × (5 * ans_amount (30000 * one) ≤ 30000 * one)
    × (20000 * one ≤ 13000 * one → ans_amount (20000 * one) ≡ 0)
ans_amount_scale_example = ans_amount_scale (20000 * one) (30000 * one) (omega arith)

calculate_payroll_ans_example :
    (before_ans (some october) ≡ false)
    × (rest : List PayrollLine) × (name : String) × (payslip.lines
        ≡ rest
          ++ record {
            code = "ANS";
            name = name;
            kind = Tipo.descuento;
            amount = ans_amount payslip.gross;
          }
            ∷ [])
calculate_payroll_ans_example =
    calculate_payroll_ans (pos (20000 * one)) rules rates none (some october) payslip payroll_run
      (omega arith)
