-- ===== src/Payroll/Credits.antt =====
-- The RC-IVA worksheet: what is accepted, the conservation of the credits, and their order.
use backend_ssas_rrhh.Base.{ℕ, ◌+◌, ◌-◌, ◌*◌, ◌≤◌, ◌<◌, ◌≡◌, Outcome, ok, arith, min}
use backend_ssas_rrhh.Base.Int.{pos}
use backend_ssas_rrhh.Money.{finite, quantize_ratio, round_half_up}
use backend_ssas_rrhh.Money.Laws.{
  IsCents, money-eq, money_mono, quantize_ratio-IsCents, IsCents-add, IsCents-sub, IsCents-min,
}
use backend_ssas_rrhh.Payroll.Rules.{PayrollError, Date, ordinal}
use backend_ssas_rrhh.Payroll.RcIva.{
  RcIvaResult, Worksheet, amount_of, taxable_income, tax_before_credits, tax_after_smn,
  apply_credits, rc_iva_from, calculate_rc_iva,
}

-- The call on a worksheet of finite amounts that are not negative.
abbrev pub on_worksheet : Date → Worksheet → Outcome PayrollError RcIvaResult
on_worksheet d w =
    calculate_rc_iva d (finite (pos w.total_earned)) (finite (pos w.labor_contributions))
      (finite (pos w.minimum_wage)) (finite (pos w.f110_credit)) (finite (pos w.prior_credit))
      (finite (pos w.prior_credit_maintenance)) (finite (pos w.prior_siete_rg))
      (finite (pos w.f110_siete_rg))

-- What a worksheet needs to be accepted.
pub record IsAccepted (d : Date) (w : Worksheet) : Type 0 where
  pub in_force : ordinal rc_iva_from ≤ ordinal d
  pub wage : 0 < w.minimum_wage
  pub earned : w.labor_contributions ≤ w.total_earned

-- A worksheet is computed exactly when it is accepted.
pub on_worksheet_iff :
    (d : Date) (w : Worksheet) (r : RcIvaResult)
    → (on_worksheet d w ≡ ok r → IsAccepted d w × (r ≡ apply_credits w (tax_after_smn w)))
      × (IsAccepted d w → on_worksheet d w ≡ ok (apply_credits w (tax_after_smn w)))
unfolding calculate_rc_iva amount_of
on_worksheet_iff d w r = (
  λ h. (
    record { in_force = ground arith; wage = ground arith; earned = ground arith },
    ground arith,
  ),
  λ a. ground arith,
)

-- The credits of a worksheet are in whole cents.
pub record CreditsInCents (w : Worksheet) : Type 0 where
  pub f110 : IsCents w.f110_credit
  pub prior : IsCents w.prior_credit
  pub maintenance : IsCents w.prior_credit_maintenance
  pub siete : IsCents w.prior_siete_rg
  pub f110_siete : IsCents w.f110_siete_rg

tax_after_smn-IsCents : (w : Worksheet) → IsCents (tax_after_smn w)
unfolding tax_after_smn tax_before_credits
tax_after_smn-IsCents w =
    let (a, p) = quantize_ratio-IsCents (taxable_income w * 13) 100 in
    let (b, q) = quantize_ratio-IsCents (w.minimum_wage * 13) 100 in (a - b, omega arith)

-- With no rounding: what is withheld and what the credits give up are the tax.
credits_balance :
    (tax f p s : ℕ)
    → let after_f110 = tax - f in
      let used = min after_f110 p in
      let siete_used = min (after_f110 - used) s in
      (after_f110 - used - siete_used) + f + p + s ≡ tax + (p - used + (f - tax)) + (s - siete_used)
credits_balance tax f p s = omega arith

credits_conserved :
    (w : Worksheet) (tax : ℕ)
    → IsCents tax
    → CreditsInCents w
    → let r = apply_credits w tax in
      r.withheld
        + w.f110_credit
        + (w.prior_credit + w.prior_credit_maintenance)
        + (w.prior_siete_rg + w.f110_siete_rg)
      ≡ tax + r.next_credit + r.next_siete_rg
unfolding apply_credits
credits_conserved w tax t c =
    let prior = IsCents-add c.prior c.maintenance in
    let siete = IsCents-add c.siete c.f110_siete in
    let after = IsCents-sub t c.f110 in
    let used = IsCents-min after prior in
    let left = IsCents-sub after used in
    let siete_used = IsCents-min left siete in
    rw
      (
        money-eq _ (IsCents-sub left siete_used),
        money-eq _ (IsCents-add (IsCents-sub prior used) (IsCents-sub c.f110 t)),
        money-eq _ (IsCents-sub siete siete_used),
      )
      (credits_balance tax w.f110_credit (w.prior_credit + w.prior_credit_maintenance)
        (w.prior_siete_rg + w.f110_siete_rg))

credits_order :
    (tax f p s : ℕ)
    → let after_f110 = tax - f in
      let used = min after_f110 p in
      let siete_used = min (after_f110 - used) s in
      (after_f110 - used - siete_used ≤ tax)
      × (0 < after_f110 - used - siete_used → (p - used + (f - tax) ≡ 0) × (s - siete_used ≡ 0))
credits_order tax f p s = omega arith

withheld_last :
    (w : Worksheet) (tax : ℕ)
    → IsCents tax
    → CreditsInCents w
    → let r = apply_credits w tax in
      (r.withheld ≤ tax) × (0 < r.withheld → (r.next_credit ≡ 0) × (r.next_siete_rg ≡ 0))
unfolding apply_credits
withheld_last w tax t c =
    let prior = IsCents-add c.prior c.maintenance in
    let siete = IsCents-add c.siete c.f110_siete in
    let after = IsCents-sub t c.f110 in
    let used = IsCents-min after prior in
    let left = IsCents-sub after used in
    let siete_used = IsCents-min left siete in
    rw
      (
        money-eq _ (IsCents-sub left siete_used),
        money-eq _ (IsCents-add (IsCents-sub prior used) (IsCents-sub c.f110 t)),
        money-eq _ (IsCents-sub siete siete_used),
      )
      (credits_order tax w.f110_credit (w.prior_credit + w.prior_credit_maintenance)
        (w.prior_siete_rg + w.f110_siete_rg))

tax_after_smn_mono :
    (w : Worksheet) (total : ℕ)
    → w.total_earned ≤ total
    → tax_after_smn w ≤ tax_after_smn (record w { total_earned = total })
unfolding tax_after_smn tax_before_credits taxable_income quantize_ratio round_half_up
tax_after_smn_mono w total h =
    let less =
      money_mono (w.total_earned - w.labor_contributions - 2 * w.minimum_wage)
        (total - w.labor_contributions - 2 * w.minimum_wage) (omega arith) in
    omega arith

-- For a worksheet whose credits are in whole cents, what is withheld plus all credits brought in is
-- the tax after the two minimum wages plus all credits carried over; tax is withheld only when no
-- credit is carried over, and never more than that tax.
pub calculate_rc_iva_conserves :
    (d : Date) (w : Worksheet) (r : RcIvaResult)
    → on_worksheet d w ≡ ok r
    → CreditsInCents w
    → (r.withheld
          + w.f110_credit
          + (w.prior_credit + w.prior_credit_maintenance)
          + (w.prior_siete_rg + w.f110_siete_rg)
        ≡ tax_after_smn w + r.next_credit + r.next_siete_rg)
      × (r.withheld ≤ tax_after_smn w)
      × (0 < r.withheld → (r.next_credit ≡ 0) × (r.next_siete_rg ≡ 0))
calculate_rc_iva_conserves d w r h c =
    let (_, made) = (on_worksheet_iff d w r).0 h in
    let t = tax_after_smn-IsCents w in
    let last = withheld_last w (tax_after_smn w) t c in
    rw made (credits_conserved w (tax_after_smn w) t c, last.0, last.1)

-- A worker who earns more, all else equal, is never withheld less.
pub calculate_rc_iva_mono :
    (d : Date) (w : Worksheet) (total : ℕ) (r s : RcIvaResult)
    → w.total_earned ≤ total
    → on_worksheet d w ≡ ok r
    → on_worksheet d (record w { total_earned = total }) ≡ ok s
    → r.withheld ≤ s.withheld
unfolding apply_credits
calculate_rc_iva_mono d w total r s more h k =
    let w' : Worksheet = record w { total_earned = total } in
    let (_, made) = (on_worksheet_iff d w r).0 h in
    let (_, made') = (on_worksheet_iff d w' s).0 k in
    let less = tax_after_smn_mono w total more in rw (made, made') (money_mono _ _ (omega arith))
