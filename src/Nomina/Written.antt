-- ===== src/Nomina/Written.antt =====
-- What a computation of a period writes.
use backend_ssas_rrhh.Base.{
  ℕ, ◌+◌, ◌≡◌, refl, sym, inl, inr, Bool, true, false, not, Option, some, List, [], ◌∷◌, ◌++◌, map,
  All, find_first, where_rows, Outcome, Outcome-cases, >>=-Passes, Option-cases, ok, err, or_raise,
  arith, leb,
}
use backend_ssas_rrhh.Payroll.Rules.{PayrollError, PayrollResult, ordinal, Date}
use backend_ssas_rrhh.Payroll.Balance.{IsClosed, calculate_payroll-IsClosed}
use backend_ssas_rrhh.Nomina.Rows.{
  NominaError, CurrentUser, PeriodoNomina, ReglaSalarial, HaberProporcional, Contrato, BoletaPago,
  NominaDb, tenant,
}
use backend_ssas_rrhh.Nomina.Structure.{structure_of}
use backend_ssas_rrhh.Nomina.Periods.{is_periodo}
use backend_ssas_rrhh.Nomina.Review.{month_end, of_payroll}
use backend_ssas_rrhh.Nomina.Gather.{Inputs, NewIds, rules_of, tax_of, gather}
use backend_ssas_rrhh.Nomina.Calculate.{
  Calculated, pay_contract, pay_contracts, run_payroll, taxed, provisional_rc_iva, or_conflict,
  boleta_of, is_boleta, write_period, is_aprobado, calculate_period,
}

-- A computation that returned: what it found, and the tables that it leaves.
pub record Written (user : CurrentUser) (now today : ℕ) (ids : NewIds) (periodo_id company : ℕ)
    (db db' : NominaDb) (done : List Calculated) : Type 0 where
  pub p : PeriodoNomina
  pub found : find_first (is_periodo company periodo_id) db.periodos ≡ some p
  pub editable : is_aprobado p.estado ≡ false
  pub closed_month : leb today (ordinal (month_end p)) ≡ false
  pub reglas : List ReglaSalarial
  pub x : Inputs
  pub gathered : gather user p ids (map (λ (q : ReglaSalarial). q.rule) reglas) db ≡ ok x
  pub paid : pay_contracts x (month_end p) x.contracts ≡ ok done
  pub tables : db' ≡ write_period now ids p reglas x done db

pub calculate_period-Written :
    (user : CurrentUser) (empresa_id : Option ℕ) (now today : ℕ) (ids : NewIds)
    (periodo_id company : ℕ) (db db' : NominaDb) (done : List Calculated)
    → tenant user empresa_id ≡ ok company
    → calculate_period user empresa_id now today ids periodo_id db ≡ ok (done, db')
    → Written user now today ids periodo_id company db db' done
unfolding calculate_period or_conflict
calculate_period-Written user empresa_id now today ids periodo_id company db db' done known
      returned =
    elim (Option-cases (find_first (is_periodo company periodo_id) db.periodos)) [
      | inl absent ↦ ground arith
      | inr (p, found) ↦ elim (Option-cases (structure_of company db)) [
        | inl absent ↦ ground arith
        | inr (s, active) ↦
            let reglas = rules_of company s.id db in
            elim (Outcome-cases
              (gather user p ids (map (λ (q : ReglaSalarial). q.rule) reglas) db)) [
                | inr (e, refused) ↦ ground arith
                | inl (x, gathered) ↦
                    elim (Outcome-cases (pay_contracts x (month_end p) x.contracts)) [
                      | inr (e, refused) ↦ ground arith
                      | inl (paid_for, paid) ↦ record {
                        p = p;
                        found = found;
                        editable = ground arith;
                        closed_month = ground arith;
                        reglas = reglas;
                        x = x;
                        gathered = gathered;
                        paid = ground arith;
                        tables = ground arith;
                      }
                    ]
              ]
      ]
    ]

-- A payslip adds up.
abbrev pub AddsUp : BoletaPago → Type 0
AddsUp b = b.total_ganado ≡ b.total_descuentos + b.liquido_pagable

of_payroll-ok : {A : Type 0} (m : Outcome PayrollError A) (a : A) → of_payroll m ≡ ok a → m ≡ ok a
unfolding of_payroll
of_payroll-ok (ok v) a e = ground arith
of_payroll-ok (err x) a e = cc

module _ (x : Inputs) (cutoff : Date) where
  run_payroll-IsClosed :
      (c : Contrato) (rc_iva : ℕ) (r : PayrollResult)
      → run_payroll x cutoff c rc_iva ≡ ok r
      → IsClosed r
  run_payroll-IsClosed c rc_iva r computed =
      calculate_payroll-IsClosed _ _ _ _ _ r (of_payroll-ok _ r computed)

  pay_contract-IsClosed :
      (c : Contrato) (done : Calculated) → pay_contract x cutoff c ≡ ok done → IsClosed done.result
  unfolding pay_contract
  pay_contract-IsClosed c done paid =
      let (t, _, rest) =
        >>=-Passes (or_raise (tax_of c.empleado_id x.taxes) NominaError.falta_rc_iva) _ paid in
      let (provisional, _, rest') =
        >>=-Passes (run_payroll x cutoff c (provisional_rc_iva t)) _ rest in
      let (t', _, rest'') = >>=-Passes (taxed x cutoff t provisional) _ rest' in
      let (r, computed, made) = >>=-Passes (run_payroll x cutoff c t'.rc_iva_retenido) _ rest'' in
      let same : r ≡ done.result = ground arith in
      rw (sym same) (run_payroll-IsClosed c t'.rc_iva_retenido r computed)

  pay_contracts-IsClosed :
      (cs : List Contrato) (done : List Calculated)
      → pay_contracts x cutoff cs ≡ ok done
      → All (λ (d : Calculated). IsClosed d.result) done
  unfolding pay_contracts
  pay_contracts-IsClosed [] done paid = let empty : [] ≡ done = ground arith in rw (sym empty) tt
  pay_contracts-IsClosed (c ∷ cs) done paid =
      let (d, first, rest) = >>=-Passes (pay_contract x cutoff c) _ paid in
      let (more, later, made) = >>=-Passes (pay_contracts x cutoff cs) _ rest in
      let all : d ∷ more ≡ done = ground arith in
      rw (sym all) (pay_contract-IsClosed c d first, pay_contracts-IsClosed cs more later)

-- The payslips of a period, before and after a computation of it.
pub record Replaced (ids : NewIds) (p : PeriodoNomina) (x : Inputs) (done : List Calculated)
    (db db' : NominaDb) : Type 0 where
  pub own : where_rows (is_boleta p) db'.boletas ≡ map (boleta_of ids p x.pays) done
  pub adds_up : All AddsUp (map (boleta_of ids p x.pays) done)
  pub others :
      where_rows (λ b. not (is_boleta p b)) db'.boletas
      ≡ where_rows (λ b. not (is_boleta p b)) db.boletas

module _ {A : Type 0} (q : A → Bool) where
  -- The rows that are kept are kept once more, and the new ones are told apart from them.
  where_rows-replaced :
      (old new : List A)
      → All (λ a. q a ≡ true) new
      → where_rows q (where_rows (λ a. not (q a)) old ++ new) ≡ new
  where_rows-replaced [] [] every = refl
  where_rows-replaced [] (b ∷ new) (here, every) = ground (arith, where_rows-replaced [] new every)
  where_rows-replaced (a ∷ old) new every = ground (arith, where_rows-replaced old new every)

  where_rows-others :
      (old new : List A)
      → All (λ a. q a ≡ true) new
      → where_rows (λ a. not (q a)) (where_rows (λ a. not (q a)) old ++ new)
        ≡ where_rows (λ a. not (q a)) old
  where_rows-others [] [] every = refl
  where_rows-others [] (b ∷ new) (here, every) = ground (arith, where_rows-others [] new every)
  where_rows-others (a ∷ old) new every = ground (arith, where_rows-others old new every)

module _ (ids : NewIds) (p : PeriodoNomina) (pays : List HaberProporcional) where
  pub boletas-own :
      (done : List Calculated) → All (λ b. is_boleta p b ≡ true) (map (boleta_of ids p pays) done)
  unfolding boleta_of
  boletas-own [] = tt
  boletas-own (d ∷ done) = (ground arith, boletas-own done)

  boletas-AddsUp :
      (done : List Calculated)
      → All (λ (d : Calculated). IsClosed d.result) done
      → All AddsUp (map (boleta_of ids p pays) done)
  unfolding boleta_of
  boletas-AddsUp [] closed = tt
  boletas-AddsUp (d ∷ done) (closed, more) = (closed.net, boletas-AddsUp done more)

-- A computation replaces the payslips of its period by new ones that add up, and leaves those of the
-- other periods.
pub calculate_period-Replaced :
    (user : CurrentUser) (empresa_id : Option ℕ) (now today : ℕ) (ids : NewIds)
    (periodo_id company : ℕ) (db db' : NominaDb) (done : List Calculated)
    → tenant user empresa_id ≡ ok company
    → calculate_period user empresa_id now today ids periodo_id db ≡ ok (done, db')
    → (w : Written user now today ids periodo_id company db db' done) × Replaced ids w.p w.x done db
        db'
unfolding write_period
calculate_period-Replaced user empresa_id now today ids periodo_id company db db' done known
      returned =
    let w =
      calculate_period-Written user empresa_id now today ids periodo_id company db db' done known
        returned in
    let own = boletas-own ids w.p w.x.pays done in
    (
      w,
      rw w.tables (record {
        own = where_rows-replaced (is_boleta w.p) db.boletas _ own;
        adds_up =
            boletas-AddsUp ids w.p w.x.pays done
              (pay_contracts-IsClosed w.x (month_end w.p) w.x.contracts done w.paid);
        others = where_rows-others (is_boleta w.p) db.boletas _ own;
      }),
    )
