-- ===== src/Payroll/Proration.antt =====
-- `suggest_calendar_proration` and `calculate_ordinary_overtime` of
-- src/ssas/personal/application/payroll.py. Days are ordinals of dates.
pub mod Days
use backend_ssas_rrhh.Base.{
  ℕ, zero, suc, ◌+◌, ◌-◌, ◌*◌, ◌≤◌, ◌≡◌, Bool, true, false, not, ◌&&◌, ◌||◌, Option, none, some,
  List, [], ◌∷◌, ltb, leb, ◌==◌, any, length, Outcome, ok, err, ◌>>=◌, ◌>>◌, raise_if, or_raise,
  min, max, if◌then◌else◌,
}
use backend_ssas_rrhh.Base.Int.{ℤ, pos, negsuc}
use backend_ssas_rrhh.Money.{Decimal, finite, one, quantize_ratio, positive}
use backend_ssas_rrhh.Payroll.Rules.{PayrollError, Date, ordinal}

-- `ProrationSuggestion`
pub record ProrationSuggestion : Type 0 where
  pub paid_days : ℕ
  pub calendar_days : ℕ
  pub unpaid_days : ℕ
  pub basic_pay : ℕ

-- A closed range of days, as a pair of ordinals.
abbrev pub Range : Type 0
Range = ℕ × ℕ

-- `any(start <= day <= end for start, end in unpaid_ranges)`
abbrev pub is_unpaid : List Range → ℕ → Bool
is_unpaid ranges day = any (λ r. leb r.0 day && leb day r.1) ranges

-- The set of the unpaid days among the `n` days from `first` on. The days are distinct, so the set
-- is a list without repetition.
unfoldable pub unpaid_dates : List Range → ℕ → ℕ → List ℕ
unpaid_dates ranges first zero = []
unpaid_dates ranges first (suc n) =
    let rest = unpaid_dates ranges first n in
    if is_unpaid ranges (first + n) then (first + n) ∷ rest else rest

-- The first and the last day that the contract covers of the month.
abbrev pub first_day : Date → ℕ → ℕ
first_day month_start contract_start = max (ordinal month_start) contract_start

abbrev pub last_day : Date → Option ℕ → ℕ
last_day month_end none = ordinal month_end
last_day month_end (some contract_end) = min (ordinal month_end) contract_end

-- `(last - first).days + 1`
abbrev pub covered_days : Date → Date → ℕ → Option ℕ → ℕ
covered_days month_start month_end contract_start contract_end =
    last_day month_end contract_end + 1 - first_day month_start contract_start

-- The pay of the covered days, once the arguments are checked.
unfoldable pub prorate : ℕ → ℕ → ℕ → ℕ → List Range → ProrationSuggestion
prorate salary calendar first covered ranges =
    let unpaid = length (unpaid_dates ranges first covered) in
    record {
      paid_days = covered - unpaid;
      calendar_days = calendar;
      unpaid_days = unpaid;
      basic_pay = quantize_ratio (salary * (covered - unpaid)) calendar;
    }

-- The checks that follow the one of the salary.
unfoldable pub checked_prorate :
    ℕ → Date → Date → ℕ → Option ℕ → List Range → Outcome PayrollError ProrationSuggestion
checked_prorate salary month_start month_end contract_start contract_end ranges = do
  raise_if (ltb (ordinal month_end) (ordinal month_start)) PayrollError.salario_o_periodo_invalido
  raise_if (not (month_start.year == month_end.year) || not (month_start.month == month_end.month))
      PayrollError.un_unico_mes
  raise_if (ltb (last_day month_end contract_end) (first_day month_start contract_start))
      PayrollError.contrato_no_cubre
  raise_if (any (λ r. ltb r.1 r.0) ranges) PayrollError.rango_ausencia_invalido
  ok (
      prorate salary (ordinal month_end - ordinal month_start + 1)
        (first_day month_start contract_start)
        (covered_days month_start month_end contract_start contract_end) ranges)

unfoldable pub suggest_calendar_proration :
    ℤ → Date → Date → ℕ → Option ℕ → List Range → Outcome PayrollError ProrationSuggestion
suggest_calendar_proration monthly_salary month_start month_end contract_start contract_end ranges =
    do
      salary ← or_raise (positive monthly_salary) PayrollError.salario_o_periodo_invalido
      checked_prorate salary month_start month_end contract_start contract_end ranges

-- `x` finite and positive.
unfoldable pub finite_positive : Decimal → Option ℕ
finite_positive (finite z) = positive z
finite_positive _ = none

-- The company's 100% surcharge on a thirtieth of the month, per ordinary hour of the day.
unfoldable pub calculate_ordinary_overtime : Decimal → Decimal → Decimal → Outcome PayrollError ℕ
calculate_ordinary_overtime monthly_salary daily_hours extra_hours = do
  salary ← or_raise (finite_positive monthly_salary) PayrollError.hora_extra_invalida
  daily ← or_raise (finite_positive daily_hours) PayrollError.hora_extra_invalida
  raise_if (ltb (8 * one) daily) PayrollError.hora_extra_invalida
  extra ← or_raise (finite_positive extra_hours) PayrollError.hora_extra_invalida
  let amount = quantize_ratio (salary * extra * 2) (30 * daily)
  raise_if (amount == 0) PayrollError.hora_extra_cero
  ok amount
