-- ===== src/Payroll/Ans.antt =====
-- The Aporte Nacional Solidario: the scale of its brackets, and when it is charged.
use backend_ssas_rrhh.Base.{
  ℕ, ◌*◌, ◌≤◌, ◌<◌, ◌≡◌, false, Option, none, some, List, ◌∷◌, [], ◌++◌, ok, arith, ◌⊎◌, String,
  Option-cases, inl, inr,
}
use backend_ssas_rrhh.Base.Int.{ℤ}
use backend_ssas_rrhh.Money.{one, quantize_ratio, round_half_up}
use backend_ssas_rrhh.Payroll.Rules.{Tipo, Rule, PayrollLine, PayrollResult, Date}
use backend_ssas_rrhh.Payroll.Calc.{
  Amounts, Totals, ans_sum, ans_amount, before_ans, add_ans, post_ans, calculate_payroll,
}
use backend_ssas_rrhh.Payroll.Balance.{close_payroll-eq, calculate_payroll-eq}

-- The contribution is zero up to the first threshold, grows with the gross, and never exceeds a
-- fifth of it (to the nearest cent).
ans_amount_zero : (gross : ℕ) → gross ≤ 13000 * one → ans_amount gross ≡ 0
unfolding ans_amount ans_sum quantize_ratio round_half_up
ans_amount_zero gross h = omega arith

ans_amount_mono : (m n : ℕ) → m ≤ n → ans_amount m ≤ ans_amount n
unfolding ans_amount ans_sum quantize_ratio round_half_up
ans_amount_mono m n h = omega arith

ans_amount_bound : (gross : ℕ) → 5 * ans_amount gross ≤ gross
unfolding ans_amount ans_sum quantize_ratio round_half_up
ans_amount_bound gross = omega arith

pub ans_amount_scale :
    (m n : ℕ)
    → m ≤ n
    → (ans_amount m ≤ ans_amount n) × (5 * ans_amount n ≤ n) × (m ≤ 13000 * one → ans_amount m ≡ 0)
ans_amount_scale m n h = (ans_amount_mono m n h, ans_amount_bound n, ans_amount_zero m)

post_ans-cases :
    (d : Option Date) (t u : Totals)
    → post_ans d t ≡ ok u
    → ((t.ans_rule ≡ none) × (u ≡ t))
      ⊎ ((q : Rule) × (t.ans_rule ≡ some q) × (before_ans d ≡ false) × (u ≡ add_ans t q))
unfolding post_ans
post_ans-cases d t u h = elim (Option-cases t.ans_rule) [
  | inl e ↦ inl (e, ground arith)
  | inr (q, e) ↦ inr (q, e, ground arith, ground arith)
]

-- A gross above the first threshold is charged the ANS of exactly that gross, in a line of its own,
-- and only in a period that ends on or after the first of October 2024.
pub calculate_payroll_ans :
    (base : ℤ) (rules : List Rule) (rates : Amounts) (external : Option Amounts) (d : Option Date)
    (r : PayrollResult)
    → calculate_payroll base rules rates external d ≡ ok r
    → 13000 * one < r.gross
    → (before_ans d ≡ false)
      × (rest : List PayrollLine) × (name : String) × (r.lines
          ≡ rest
            ++ record {
              code = "ANS";
              name = name;
              kind = Tipo.descuento;
              amount = ans_amount r.gross;
            }
              ∷ [])
unfolding add_ans
calculate_payroll_ans base rules rates external d r h big =
    let (_, t, _, _, h2) = calculate_payroll-eq base rules rates external d r h in
    let (u, h3, _, made, _, covered) = close_payroll-eq d t r h2 in
    elim (post_ans-cases d t u h3) [
      | inl (e, same) ↦ absurd (ground arith)
      | inr (q, e, late, more) ↦ (late, t.lines, q.nombre, ground arith)
    ]
