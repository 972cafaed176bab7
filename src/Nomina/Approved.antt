-- ===== src/Nomina/Approved.antt =====
-- The requests that change payroll data, and what they leave alone: an approved period.
use backend_ssas_rrhh.Base.{
  ℕ, ◌≡◌, refl, sym, Bool-cases, ap, ◌∙◌, inl, inr, Bool, true, false, not, Option, some, List, [],
  ◌∷◌, ◌++◌, String, All, find_first, where_rows, update_where, add_row, updated?,
  find_first-update_where, find_first-passes, ok, arith,
}
use backend_ssas_rrhh.Payroll.Rules.{Rule}
use backend_ssas_rrhh.Nomina.Rows.{
  CurrentUser, PeriodoNomina, ReglaSalarial, DatosTributarios, BoletaPago, NominaDb, ParametroValor,
}
use backend_ssas_rrhh.Nomina.Legal.{LegalValueInput, create_legal_rate, create_minimum_wage}
use backend_ssas_rrhh.Nomina.Structure.{add_salary_rule}
use backend_ssas_rrhh.Nomina.Periods.{
  is_periodo, open_period, TaxWithholdingInput, register_tax_withholding, register_tax_data,
  ProportionalPayInput, register_proportional_pay, approve_period,
}
use backend_ssas_rrhh.Nomina.Gather.{NewIds}
use backend_ssas_rrhh.Nomina.Calculate.{Calculated, is_boleta, is_aprobado, calculate_period}

-- One request that returned.
pub data Step (db : NominaDb) : NominaDb → Type 0 where
  opened :
      (user : CurrentUser) (empresa_id : Option ℕ) (new_id gestion mes : ℕ) (row : PeriodoNomina)
      (db' : NominaDb)
      → open_period user empresa_id new_id gestion mes db ≡ ok (row, db')
      → Step db db'
  withheld :
      (user : CurrentUser) (empresa_id : Option ℕ) (periodo_id new_id : ℕ) (x : TaxWithholdingInput)
      (db' : NominaDb)
      → register_tax_withholding user empresa_id periodo_id new_id x db ≡ ok (tt, db')
      → Step db db'
  paid_partly :
      (user : CurrentUser) (empresa_id : Option ℕ) (periodo_id new_id : ℕ)
      (x : ProportionalPayInput) (db' : NominaDb)
      → register_proportional_pay user empresa_id periodo_id new_id x db ≡ ok (tt, db')
      → Step db db'
  approved :
      (user : CurrentUser) (empresa_id : Option ℕ) (now periodo_id : ℕ) (db' : NominaDb)
      → approve_period user empresa_id now periodo_id db ≡ ok (tt, db')
      → Step db db'
  calculated :
      (user : CurrentUser) (empresa_id : Option ℕ) (now today : ℕ) (ids : NewIds) (periodo_id : ℕ)
      (done : List Calculated) (db' : NominaDb)
      → calculate_period user empresa_id now today ids periodo_id db ≡ ok (done, db')
      → Step db db'
  tax_data_given :
      (user : CurrentUser) (empresa_id : Option ℕ) (periodo_id new_id empleado_id : ℕ)
      (referencia : String) (datos : DatosTributarios) (db' : NominaDb)
      → register_tax_data user empresa_id periodo_id new_id empleado_id referencia datos db
        ≡ ok (tt, db')
      → Step db db'
  rule_added :
      (user : CurrentUser) (empresa_id : Option ℕ) (new_structure_id new_id : ℕ) (r : Rule)
      (row : ReglaSalarial) (db' : NominaDb)
      → add_salary_rule user empresa_id new_structure_id new_id r db ≡ ok (row, db')
      → Step db db'
  rate_created :
      (codigo : String) (new_id : ℕ) (x : LegalValueInput) (row : ParametroValor) (db' : NominaDb)
      → create_legal_rate codigo new_id x db ≡ ok (row, db')
      → Step db db'
  wage_created :
      (new_id : ℕ) (x : LegalValueInput) (row : ParametroValor) (db' : NominaDb)
      → create_minimum_wage new_id x db ≡ ok (row, db')
      → Step db db'

-- The period of the company is approved, in this row.
pub record Approved (company periodo_id : ℕ) (p : PeriodoNomina) (db : NominaDb) : Type 0 where
  pub found : find_first (is_periodo company periodo_id) db.periodos ≡ some p
  pub final : is_aprobado p.estado ≡ true

module _ (company periodo_id : ℕ) (p : PeriodoNomina) where
  -- A row that is added behind does not hide the period.
  pub find_first-add_row :
      (r : PeriodoNomina) (rows : List PeriodoNomina)
      → find_first (is_periodo company periodo_id) rows ≡ some p
      → find_first (is_periodo company periodo_id) (add_row r rows) ≡ some p
  find_first-add_row r [] found = cc
  find_first-add_row r (q ∷ rows) found = ground (arith, find_first-add_row r rows)

-- The payslips of the period.
abbrev pub payslips : PeriodoNomina → NominaDb → List BoletaPago
payslips p db = where_rows (is_boleta p) db.boletas

-- The period is as it was, and so are its payslips.
pub record Kept (company periodo_id : ℕ) (p : PeriodoNomina) (db db' : NominaDb) : Type 0 where
  pub still : Approved company periodo_id p db'
  pub same_payslips : payslips p db' ≡ payslips p db

pub where_rows-disjoint :
    {A : Type 0} (r q : A → Bool) (old new : List A)
    → ((a : A) → q a ≡ true → r a ≡ false)
    → All (λ a. q a ≡ true) new
    → where_rows r (where_rows (λ a. not (q a)) old ++ new) ≡ where_rows r old
where_rows-disjoint r q [] [] apart every = refl
where_rows-disjoint r q [] (b ∷ new) apart (here, every) =
    ground (arith, apart b, where_rows-disjoint r q [] new apart every)
where_rows-disjoint r q (a ∷ old) new apart every =
    ground (arith, apart a, where_rows-disjoint r q old new apart every)

module _ (company periodo_id : ℕ) (p : PeriodoNomina) (db : NominaDb) where
  -- Rows that are left alone.
  pub Kept-same :
      (db' : NominaDb)
      → Approved company periodo_id p db
      → db'.periodos ≡ db.periodos
      → db'.boletas ≡ db.boletas
      → Kept company periodo_id p db db'
  Kept-same db' a periods slips = record {
    still = record { found = rw periods a.found; final = a.final };
    same_payslips = rw slips refl;
  }

  same_period :
      (c i : ℕ)
      → is_periodo c i p ≡ true
      → is_periodo company periodo_id p ≡ true
      → (c ≡ company) × (i ≡ periodo_id)
  same_period c i its mine = ground arith

  absurd_row :
      {b : Bool} (p2 : PeriodoNomina)
      → some p ≡ some p2
      → is_aprobado p.estado ≡ true
      → is_aprobado p2.estado ≡ false
      → b ≡ false
  absurd_row p2 same final open_still = cc

  -- A period that may still be changed is another one.
  pub other_period :
      (c i : ℕ) (p2 : PeriodoNomina)
      → Approved company periodo_id p db
      → find_first (is_periodo c i) db.periodos ≡ some p2
      → is_aprobado p2.estado ≡ false
      → is_periodo c i p ≡ false
  other_period c i p2 a found open_still = elim (Bool-cases (is_periodo c i p)) [
    | inr not_its ↦ not_its
    | inl its ↦
        let (same_company, same_id) =
          same_period c i its
            (find_first-passes (is_periodo company periodo_id) db.periodos a.found) in
        let row_found : find_first (is_periodo company periodo_id) db.periodos ≡ some p2 =
          rw (← same_company, ← same_id) found in
        let same_row : some p ≡ some p2 = sym a.found ∙ row_found in
        absurd_row p2 same_row a.final open_still
  ]

  -- An update of other periods.
  pub Approved-update :
      (c i : ℕ) (f : PeriodoNomina → PeriodoNomina) (db' : NominaDb)
      → Approved company periodo_id p db
      → is_periodo c i p ≡ false
      → ((q : PeriodoNomina)
          → is_periodo company periodo_id (f q) ≡ is_periodo company periodo_id q)
      → db'.periodos ≡ update_where (is_periodo c i) f db.periodos
      → Approved company periodo_id p db'
  Approved-update c i f db' a other same_keys periods = record {
    found = rw periods (
        find_first-update_where (is_periodo company periodo_id) (is_periodo c i) f db.periodos
          same_keys
        ∙ ap (updated? (is_periodo c i) f) a.found
        ∙ ap some (rw other refl));
    final = a.final;
  }
