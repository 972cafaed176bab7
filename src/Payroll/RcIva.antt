-- ===== src/Payroll/RcIva.antt =====
-- `calculate_rc_iva` of src/ssas/personal/application/rc_iva.py: the worksheet of the tax withheld
-- from a dependent worker.
use backend_ssas_rrhh.Base.{
  ℕ, ◌+◌, ◌-◌, ◌*◌, ltb, ◌==◌, Outcome, ok, err, ◌>>=◌, ◌>>◌, raise_if, min,
}
use backend_ssas_rrhh.Base.Int.{pos, negsuc}
use backend_ssas_rrhh.Money.{Decimal, money, quantize_ratio}
use backend_ssas_rrhh.Payroll.Rules.{PayrollError, Date, ordinal}

-- `RcIvaResult`
pub record RcIvaResult : Type 0 where
  pub withheld : ℕ
  pub next_credit : ℕ
  pub next_siete_rg : ℕ
  pub taxable_income : ℕ
  pub tax_before_credits : ℕ

-- The arguments, once they are checked.
pub record Worksheet : Type 0 where
  pub total_earned : ℕ
  pub labor_contributions : ℕ
  pub minimum_wage : ℕ
  pub f110_credit : ℕ
  pub prior_credit : ℕ
  pub prior_credit_maintenance : ℕ
  pub prior_siete_rg : ℕ
  pub f110_siete_rg : ℕ

-- `value < 0 or not value.is_finite()`; the order test of a NaN raises `InvalidOperation`.
unfoldable pub amount_of : Decimal → Outcome PayrollError ℕ
amount_of (Decimal.finite (pos n)) = ok n
amount_of (Decimal.finite (negsuc n)) = err PayrollError.rc_iva_importes
amount_of Decimal.infinity = err PayrollError.rc_iva_importes
amount_of Decimal.neg_infinity = err PayrollError.rc_iva_importes
amount_of Decimal.nan = err PayrollError.invalid_operation

-- `money(x * RATE)`
abbrev pub at_rate : ℕ → ℕ
at_rate x = quantize_ratio (x * 13) 100

-- `money(max(Decimal(0), total_earned - labor_contributions - 2 * minimum_wage))`
unfoldable pub taxable_income : Worksheet → ℕ
taxable_income w = money (w.total_earned - w.labor_contributions - 2 * w.minimum_wage)

unfoldable pub tax_before_credits : Worksheet → ℕ
tax_before_credits w = at_rate (taxable_income w)

-- `tax_after_smn`
unfoldable pub tax_after_smn : Worksheet → ℕ
tax_after_smn w = tax_before_credits w - at_rate w.minimum_wage

-- The use of the credits, in the order form 110, prior balance, `SIETE-RG`.
unfoldable pub apply_credits : Worksheet → ℕ → RcIvaResult
apply_credits w after_smn =
    let tax_after_f110 = after_smn - w.f110_credit in
    let credit_generated = w.f110_credit - after_smn in
    let available_credit = w.prior_credit + w.prior_credit_maintenance in
    let credit_used = min tax_after_f110 available_credit in
    let tax_after_credit = tax_after_f110 - credit_used in
    let available_siete_rg = w.prior_siete_rg + w.f110_siete_rg in
    let siete_rg_used = min tax_after_credit available_siete_rg in
    record {
      withheld = money (tax_after_credit - siete_rg_used);
      next_credit = money (available_credit - credit_used + credit_generated);
      next_siete_rg = money (available_siete_rg - siete_rg_used);
      taxable_income = taxable_income w;
      tax_before_credits = tax_before_credits w;
    }

-- `date(2025, 5, 1)`
abbrev pub rc_iva_from : Date
rc_iva_from = record { year = 2025; month = 5; day = 1 }

unfoldable pub calculate_rc_iva :
    Date
    → Decimal
    → Decimal
    → Decimal
    → Decimal
    → Decimal
    → Decimal
    → Decimal
    → Decimal
    → Outcome PayrollError RcIvaResult
calculate_rc_iva period_end total_earned labor_contributions minimum_wage f110_credit prior_credit
      prior_credit_maintenance prior_siete_rg f110_siete_rg =
    do
      raise_if (ltb (ordinal period_end) (ordinal rc_iva_from)) PayrollError.rc_iva_periodo
      total ← amount_of total_earned
      labor ← amount_of labor_contributions
      wage ← amount_of minimum_wage
      f110 ← amount_of f110_credit
      prior ← amount_of prior_credit
      maintenance ← amount_of prior_credit_maintenance
      siete ← amount_of prior_siete_rg
      f110_siete ← amount_of f110_siete_rg
      raise_if (wage == 0) PayrollError.rc_iva_importes
      raise_if (ltb total labor) PayrollError.rc_iva_aportes
      let w : Worksheet = record {
        total_earned = total;
        labor_contributions = labor;
        minimum_wage = wage;
        f110_credit = f110;
        prior_credit = prior;
        prior_credit_maintenance = maintenance;
        prior_siete_rg = siete;
        f110_siete_rg = f110_siete;
      }
      ok (apply_credits w (tax_after_smn w))
