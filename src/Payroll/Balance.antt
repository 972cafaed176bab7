-- ===== src/Payroll/Balance.antt =====
-- What every result of `calculate_payroll` satisfies.
use backend_ssas_rrhh.Base.{
  ℕ, ◌+◌, ◌*◌, ◌≤◌, ◌≡◌, true, Option, some, List, member, All, All-append, is_some, ok, >>=-Passes,
  arith, Option-cases, Outcome-cases, inl, inr, ◌⊎◌,
}
use backend_ssas_rrhh.Base.Int.{ℤ}
use backend_ssas_rrhh.Money.{one, positive}
use backend_ssas_rrhh.Money.Laws.{IsCents, quantize_ratio-IsCents}
use backend_ssas_rrhh.Payroll.Rules.{Rule, PayrollResult, Date}
use backend_ssas_rrhh.Payroll.Calc.{
  Amounts, Totals, no_totals, sort_rules, apply_rules, ans_amount, add_ans, post_ans, close_payroll,
  calculate_payroll, result_of,
}
use backend_ssas_rrhh.Payroll.Totals.{
  is_ingreso, is_descuento, is_patronal, sum_of, sum_of-append, Distinct, Distinct-append,
  IsBalanced, IsBalanced-no_totals, apply_rules-IsBalanced,
}

-- What the result records of the totals that it is made from.
pub record IsClosed (r : PayrollResult) : Type 0 where
  pub ingresos : r.gross ≡ sum_of is_ingreso r.lines
  pub descuentos : r.deductions ≡ sum_of is_descuento r.lines
  pub patronales : r.employer_contributions ≡ sum_of is_patronal r.lines
  pub net : r.gross ≡ r.deductions + r.net
  pub cents : All (λ l. IsCents l.amount) r.lines
  pub distinct : Distinct r.lines

-- The totals that `close_payroll` makes a result of.
record IsSummed (u : Totals) : Type 0 where
  ingresos : u.ingreso ≡ sum_of is_ingreso u.lines
  descuentos : u.descuento ≡ sum_of is_descuento u.lines
  patronales : u.patronal ≡ sum_of is_patronal u.lines
  cents : All (λ l. IsCents l.amount) u.lines
  distinct : Distinct u.lines

Balanced-IsSummed : (t : Totals) → IsBalanced t → IsSummed t
Balanced-IsSummed t b = record {
  ingresos = b.ingresos;
  descuentos = b.descuentos;
  patronales = b.patronales;
  cents = b.cents;
  distinct = b.distinct;
}

ans_amount-IsCents : (gross : ℕ) → IsCents (ans_amount gross)
unfolding ans_amount
ans_amount-IsCents gross = quantize_ratio-IsCents _ _

add_ans-IsSummed : (t : Totals) (r : Rule) → IsBalanced t → IsSummed (add_ans t r)
unfolding add_ans
add_ans-IsSummed t r b = record {
  ingresos = rw (sum_of-append is_ingreso t.lines) (omega arith);
  descuentos = rw (sum_of-append is_descuento t.lines) (omega arith);
  patronales = rw (sum_of-append is_patronal t.lines) (omega arith);
  cents = All-append _ t.lines _ (b.cents, (ans_amount-IsCents t.ingreso, tt));
  distinct = Distinct-append t.lines _ b.distinct b.no_ans;
}

post_ans-IsSummed :
    (d : Option Date) (t : Totals) {u : Totals} → post_ans d t ≡ ok u → IsBalanced t → IsSummed u
unfolding post_ans
post_ans-IsSummed d t {u} h b = elim (Option-cases t.ans_rule) [
  | inl e ↦ ground (arith, Balanced-IsSummed t b)
  | inr (r, e) ↦ ground (arith, add_ans-IsSummed t r b)
]

-- A result is made from the totals after ANS, whose deductions the gross covers.
pub close_payroll-eq :
    (d : Option Date) (t : Totals) (r : PayrollResult)
    → close_payroll d t ≡ ok r
    → (u : Totals) × (post_ans d t ≡ ok u)
      × (u.descuento ≤ u.ingreso)
      × (r ≡ result_of u)
      × (member "SALARIO_BASICO" t.seen ≡ true)
      × ((t.ingreso ≤ 13000 * one) ⊎ (is_some t.ans_rule ≡ true))
unfolding close_payroll
close_payroll-eq d t r h = elim (Outcome-cases (post_ans d t)) [
  | inl (u, e) ↦ (u, e, ground arith, ground arith, ground arith, ground arith)
  | inr (x, e) ↦ absurd (ground arith)
]

-- A result comes from the loop over the sorted rules.
pub calculate_payroll-eq :
    (base : ℤ) (rules : List Rule) (rates : Amounts) (external : Option Amounts) (d : Option Date)
    (r : PayrollResult)
    → calculate_payroll base rules rates external d ≡ ok r
    → (salary : ℕ) × (t : Totals) × (positive base ≡ some salary)
      × (apply_rules
            (record { base_salary = salary; parameters = rates; external_amounts = external })
            no_totals
            (sort_rules rules)
          ≡ ok t)
      × (close_payroll d t ≡ ok r)
unfolding calculate_payroll
calculate_payroll-eq base rules rates external d r h = elim (Option-cases (positive base)) [
  | inl e ↦ absurd (ground arith)
  | inr (salary, e) ↦
      let (t, e', h') =
        >>=-Passes
          (apply_rules
            (record { base_salary = salary; parameters = rates; external_amounts = external })
            no_totals (sort_rules rules))
          (close_payroll d) (rw e at h) in
      (salary, t, e, e', h')
]

-- Every result balances: the gross, the deductions and the employer's contributions are the sums of
-- the lines of their kind, the net is what the deductions leave of the gross, every amount is in
-- whole cents, and no code is charged twice.
pub calculate_payroll-IsClosed :
    (base : ℤ) (rules : List Rule) (rates : Amounts) (external : Option Amounts) (d : Option Date)
    (r : PayrollResult)
    → calculate_payroll base rules rates external d ≡ ok r
    → IsClosed r
calculate_payroll-IsClosed base rules rates external d r h =
    let (salary, t, e, h1, h2) = calculate_payroll-eq base rules rates external d r h in
    let b : IsBalanced t =
      apply_rules-IsBalanced
        (record { base_salary = salary; parameters = rates; external_amounts = external }) no_totals
        (sort_rules rules) h1 IsBalanced-no_totals in
    let (u, h3, fits, made, _, _) = close_payroll-eq d t r h2 in
    let s : IsSummed u = post_ans-IsSummed d t h3 b in
    rw made (record {
      ingresos = s.ingresos;
      descuentos = s.descuentos;
      patronales = s.patronales;
      net = omega arith;
      cents = s.cents;
      distinct = s.distinct;
    })
