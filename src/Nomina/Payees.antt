-- ===== src/Nomina/Payees.antt =====
-- Who is paid in a period: each current contract once, and no worker twice.
use backend_ssas_rrhh.Base.{
  ℕ, ◌≡◌, refl, sym, ap, ◌∙◌, false, Option, some, List, [], ◌∷◌, map, find_first, where_rows,
  >>=-Passes, ok, arith,
}
use backend_ssas_rrhh.Payroll.Rules.{Rule, Date, ordinal}
use backend_ssas_rrhh.Nomina.Rows.{
  CurrentUser, PeriodoNomina, HaberProporcional, Contrato, BoletaPago, NominaDb, tenant,
}
use backend_ssas_rrhh.Nomina.Periods.{is_periodo}
use backend_ssas_rrhh.Nomina.Review.{month_start, month_end, contracts_of, has_repeated}
use backend_ssas_rrhh.Nomina.Gather.{Inputs, NewIds, gather}
use backend_ssas_rrhh.Nomina.Calculate.{
  Calculated, pay_contract, pay_contracts, boleta_of, is_boleta, calculate_period,
}
use backend_ssas_rrhh.Nomina.Written.{calculate_period-Replaced}

-- The contracts that meet the month of a period.
abbrev pub current_contracts : PeriodoNomina → NominaDb → List Contrato
current_contracts p db =
    contracts_of p.empresa_id (ordinal (month_start p)) (ordinal (month_end p)) db

gather-contracts :
    (user : CurrentUser) (p : PeriodoNomina) (ids : NewIds) (rules : List Rule) (db : NominaDb)
    (x : Inputs)
    → gather user p ids rules db ≡ ok x
    → (x.contracts ≡ current_contracts p db) × (has_repeated (current_contracts p db) ≡ false)
unfolding gather
gather-contracts user p ids rules db x gathered = ground arith

module _ (x : Inputs) (cutoff : Date) where
  pay_contract-contract :
      (c : Contrato) (d : Calculated) → pay_contract x cutoff c ≡ ok d → d.contract ≡ c
  unfolding pay_contract
  pay_contract-contract c d paid = ground arith

  pay_contracts-contracts :
      (cs : List Contrato) (done : List Calculated)
      → pay_contracts x cutoff cs ≡ ok done
      → map (λ (d : Calculated). d.contract) done ≡ cs
  unfolding pay_contracts
  pay_contracts-contracts [] done paid = let empty : [] ≡ done = ground arith in rw (sym empty) refl
  pay_contracts-contracts (c ∷ cs) done paid =
      let (d, first, rest) = >>=-Passes (pay_contract x cutoff c) _ paid in
      let (more, later, made) = >>=-Passes (pay_contracts x cutoff cs) _ rest in
      let all : d ∷ more ≡ done = ground arith in
      rw (sym all, pay_contract-contract c d first, pay_contracts-contracts cs more later) refl

boletas-contracts :
    (ids : NewIds) (p : PeriodoNomina) (pays : List HaberProporcional) (done : List Calculated)
    → map (λ (b : BoletaPago). b.contrato_id) (map (boleta_of ids p pays) done)
      ≡ map (λ (k : Contrato). k.id) (map (λ (d : Calculated). d.contract) done)
unfolding boleta_of
boletas-contracts ids p pays [] = refl
boletas-contracts ids p pays (d ∷ done) =
    ap (λ r. d.contract.id ∷ r) (boletas-contracts ids p pays done)

-- The payslips of the period are for its current contracts, in their order, and no two of these are of
-- one worker.
pub record PaysEach (p : PeriodoNomina) (db db' : NominaDb) : Type 0 where
  pub each :
      map (λ (b : BoletaPago). b.contrato_id) (where_rows (is_boleta p) db'.boletas)
      ≡ map (λ (k : Contrato). k.id) (current_contracts p db)
  pub once : has_repeated (current_contracts p db) ≡ false

-- After a computation each contract that meets the month has one payslip in the period, there are no
-- others, and no worker has two such contracts.
pub calculate_period-PaysEach :
    (user : CurrentUser) (empresa_id : Option ℕ) (now today : ℕ) (ids : NewIds)
    (periodo_id company : ℕ) (db db' : NominaDb) (done : List Calculated)
    → tenant user empresa_id ≡ ok company
    → calculate_period user empresa_id now today ids periodo_id db ≡ ok (done, db')
    → (p : PeriodoNomina) × (find_first (is_periodo company periodo_id) db.periodos ≡ some p)
      × PaysEach p db db'
calculate_period-PaysEach user empresa_id now today ids periodo_id company db db' done known
      returned =
    let (w, r) =
      calculate_period-Replaced user empresa_id now today ids periodo_id company db db' done known
        returned in
    let (listed, once) = gather-contracts user w.p ids _ db w.x w.gathered in
    let each = pay_contracts-contracts w.x (month_end w.p) w.x.contracts done w.paid in
    (
      w.p,
      w.found,
      record {
        each =
            ap (map (λ (b : BoletaPago). b.contrato_id)) r.own
            ∙ boletas-contracts ids w.p w.x.pays done
            ∙ ap (map (λ (k : Contrato). k.id)) (each ∙ listed);
        once = once;
      },
    )
