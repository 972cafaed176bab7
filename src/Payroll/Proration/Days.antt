-- ===== src/Payroll/Proration/Days.antt =====
-- The days and the pay of a proration, and the overtime amount.
use backend_ssas_rrhh.Base.{
  ℕ, zero, suc, ◌+◌, ◌-◌, ◌*◌, ◌≤◌, ◌<◌, ◌≡◌, refl, Option, none, some, List, length, ok, arith,
  sym,
}
use backend_ssas_rrhh.Base.Int.{pos}
use backend_ssas_rrhh.Money.{finite, one, money, quantize_ratio, positive}
use backend_ssas_rrhh.Money.Laws.{
  IsCents, quantize_ratio-IsCents, quantize_ratio_near, quantize_ratio-share, quantize_ratio-whole,
}
use backend_ssas_rrhh.Payroll.Rules.{Date, ordinal}
use backend_ssas_rrhh.Payroll.Proration.{
  ProrationSuggestion, Range, unpaid_dates, first_day, covered_days, prorate, checked_prorate,
  suggest_calendar_proration, finite_positive, calculate_ordinary_overtime,
}

length-unpaid_dates : (ranges : List Range) (first n : ℕ) → length (unpaid_dates ranges first n) ≤ n
unfolding unpaid_dates
length-unpaid_dates ranges first zero = omega arith
length-unpaid_dates ranges first (suc n) = ground (arith, length-unpaid_dates ranges first n)

-- What a suggestion says of the days and of the pay.
pub record IsFair (salary : ℕ) (covered calendar : ℕ) (s : ProrationSuggestion) : Type 0 where
  pub days : s.paid_days + s.unpaid_days ≡ covered
  pub calendar_days : s.calendar_days ≡ calendar
  pub within : covered ≤ calendar
  pub cents : IsCents s.basic_pay
  pub at_most : s.basic_pay ≤ money salary
  pub whole : s.paid_days ≡ calendar → s.basic_pay ≡ money salary

prorate-IsFair :
    (salary calendar first covered : ℕ) (ranges : List Range)
    → 0 < calendar
    → covered ≤ calendar
    → IsFair salary covered calendar (prorate salary calendar first covered ranges)
unfolding prorate
prorate-IsFair salary calendar first covered ranges h le =
    let bound = length-unpaid_dates ranges first covered in
    record {
      days = omega arith;
      calendar_days = refl;
      within = le;
      cents = quantize_ratio-IsCents _ _;
      at_most = quantize_ratio-share salary _ calendar h (omega arith);
      whole = λ e. rw e (quantize_ratio-whole salary calendar h);
    }

covered-le :
    (ms me : Date) (cs : ℕ) (ce : Option ℕ) → covered_days ms me cs ce ≤ ordinal me - ordinal ms + 1
covered-le ms me cs none = omega arith
covered-le ms me cs (some e) = omega arith

prorate_of :
    (salary : ℕ) (ms me : Date) (cs : ℕ) (ce : Option ℕ) (ranges : List Range)
    (s : ProrationSuggestion)
    → suggest_calendar_proration (pos salary) ms me cs ce ranges ≡ ok s
    → s
      ≡ prorate salary
          (ordinal me - ordinal ms + 1)
          (first_day ms cs)
          (covered_days ms me cs ce)
          ranges
unfolding suggest_calendar_proration checked_prorate positive
prorate_of salary ms me cs ce ranges s h = ground arith

-- A suggestion splits the covered days into paid and unpaid ones, of which there are no more than the
-- month has; its pay is in whole cents, at most the monthly salary, and the whole salary when every
-- day of the month is paid.
pub suggest_calendar_proration-IsFair :
    (salary : ℕ) (month_start month_end : Date) (contract_start : ℕ) (contract_end : Option ℕ)
    (ranges : List Range) (s : ProrationSuggestion)
    → suggest_calendar_proration
        (pos salary)
        month_start
        month_end
        contract_start
        contract_end
        ranges
      ≡ ok s
    → IsFair salary
        (covered_days month_start month_end contract_start contract_end)
        (ordinal month_end - ordinal month_start + 1)
        s
suggest_calendar_proration-IsFair salary ms me cs ce ranges s h =
    let made : s
        ≡ prorate salary (ordinal me - ordinal ms + 1) (first_day ms cs) (covered_days ms me cs ce)
            ranges =
      prorate_of salary ms me cs ce ranges s h in
    rw made (prorate-IsFair salary _ _ _ ranges (omega arith) (covered-le ms me cs ce))

overtime-eq :
    (salary daily extra amount : ℕ)
    → calculate_ordinary_overtime (finite (pos salary)) (finite (pos daily)) (finite (pos extra))
      ≡ ok amount
    → (0 < daily)
      × (daily ≤ 8 * one)
      × (amount ≡ quantize_ratio (salary * extra * 2) (30 * daily))
      × (0 < amount)
unfolding calculate_ordinary_overtime finite_positive positive
overtime-eq salary daily extra amount h = ground arith

-- An overtime amount is positive, in whole cents, and within half a cent of twice the hourly wage
-- of a month of thirty days times the extra hours.
pub calculate_ordinary_overtime_near :
    (salary daily extra amount : ℕ)
    → calculate_ordinary_overtime (finite (pos salary)) (finite (pos daily)) (finite (pos extra))
      ≡ ok amount
    → (0 < amount)
      × IsCents amount
      × (daily ≤ 8 * one)
      × (amount * (30 * daily) ≤ salary * extra * 2 + 50 * (30 * daily))
      × (salary * extra * 2 < amount * (30 * daily) + 50 * (30 * daily))
calculate_ordinary_overtime_near salary daily extra amount h =
    let (day, fits, made, some_pay) = overtime-eq salary daily extra amount h in
    let near = quantize_ratio_near (salary * extra * 2) (30 * daily) (omega arith) in
    rw made (rw (sym made) some_pay, quantize_ratio-IsCents _ _, fits, near.0, near.1)
