-- ===== src/Nomina/Final.antt =====
-- An approved period is final, whatever requests follow.
use backend_ssas_rrhh.Base.{
  ℕ, ◌≡◌, refl, ◌∙◌, inl, inr, true, false, Option, some, List, [], ◌∷◌, ◌++◌, String, find_first,
  find_first-passes, update_where, Outcome-cases, Option-cases, ok, arith,
}
use backend_ssas_rrhh.Nomina.Rows.{
  CurrentUser, Estado, PeriodoNomina, ReglaSalarial, DatosTributarios, ParametroValor, BoletaPago,
  NominaDb, tenant,
}
use backend_ssas_rrhh.Nomina.Periods.{
  is_periodo, open_period, TaxWithholdingInput, register_tax_withholding, register_tax_data,
  ProportionalPayInput, register_proportional_pay, approve_period,
}
use backend_ssas_rrhh.Nomina.Gather.{NewIds}
use backend_ssas_rrhh.Nomina.Legal.{
  LegalValueInput, add_value, create_legal_rate, create_minimum_wage,
}
use backend_ssas_rrhh.Nomina.Structure.{ensure_structure, insert_regla, add_salary_rule}
use backend_ssas_rrhh.Payroll.Rules.{Rule}
use backend_ssas_rrhh.Nomina.Calculate.{
  Calculated, is_boleta, is_aprobado, write_period, calculate_period,
}
use backend_ssas_rrhh.Nomina.Written.{Written, calculate_period-Written, boletas-own}
use backend_ssas_rrhh.Nomina.Approved.{
  Step, opened, withheld, paid_partly, approved, calculated, tax_data_given, rule_added,
  rate_created, wage_created, Approved, Kept, Kept-same, find_first-add_row, other_period,
  Approved-update, where_rows-disjoint,
}

module _ (company periodo_id : ℕ) (p : PeriodoNomina) (db db' : NominaDb) where
  absurd_step : true ≡ false → Kept company periodo_id p db db'
  absurd_step e = cc

  -- The payslips of a period that may be changed are not those of the approved one.
  boletas-apart :
      (c i : ℕ) (p2 : PeriodoNomina) (b : BoletaPago)
      → is_periodo c i p ≡ false
      → is_periodo c i p2 ≡ true
      → is_boleta p2 b ≡ true
      → is_boleta p b ≡ false
  boletas-apart c i p2 b away its of_other = grind (arith, away, its, of_other)

  of_row :
      (c i : ℕ) (p2 : PeriodoNomina)
      → is_periodo c i p ≡ false
      → is_periodo c i p2 ≡ true
      → is_periodo p2.empresa_id p2.id p ≡ false
  of_row c i p2 away its = grind (arith, away, its)

  Written-Kept :
      (user : CurrentUser) (now today : ℕ) (ids : NewIds) (other_id c : ℕ) (done : List Calculated)
      → Approved company periodo_id p db
      → Written user now today ids other_id c db db' done
      → Kept company periodo_id p db db'
  unfolding write_period
  Written-Kept user now today ids other_id c done a w =
      let away = other_period company periodo_id p db c other_id w.p a w.found w.editable in
      let its = find_first-passes (is_periodo c other_id) db.periodos w.found in
      rw w.tables (record {
        still =
            Approved-update company periodo_id p db w.p.empresa_id w.p.id _ _ a
              (of_row c other_id w.p away its) (λ q. refl) refl;
        same_payslips =
            where_rows-disjoint (is_boleta p) (is_boleta w.p) db.boletas _
              (λ b of_other. boletas-apart c other_id w.p b away its of_other)
              (boletas-own ids w.p w.x.pays done);
      })

  open_period-Kept :
      (user : CurrentUser) (empresa_id : Option ℕ) (new_id gestion mes : ℕ) (row : PeriodoNomina)
      → Approved company periodo_id p db
      → open_period user empresa_id new_id gestion mes db ≡ ok (row, db')
      → Kept company periodo_id p db db'
  unfolding open_period
  open_period-Kept user empresa_id new_id gestion mes row a returned =
      let tables : db' ≡ record db { periodos = db.periodos ++ row ∷ [] } = ground arith in
      rw tables (record {
        still = record {
          found = find_first-add_row company periodo_id p row db.periodos a.found;
          final = a.final;
        };
        same_payslips = refl;
      })

  register_tax_withholding-Kept :
      (user : CurrentUser) (empresa_id : Option ℕ) (other_id new_id : ℕ) (x : TaxWithholdingInput)
      → Approved company periodo_id p db
      → register_tax_withholding user empresa_id other_id new_id x db ≡ ok (tt, db')
      → Kept company periodo_id p db db'
  unfolding register_tax_withholding
  register_tax_withholding-Kept user empresa_id other_id new_id x a returned =
      Kept-same company periodo_id p db db' a (ground arith) (ground arith)

  register_proportional_pay-Kept :
      (user : CurrentUser) (empresa_id : Option ℕ) (other_id new_id : ℕ) (x : ProportionalPayInput)
      → Approved company periodo_id p db
      → register_proportional_pay user empresa_id other_id new_id x db ≡ ok (tt, db')
      → Kept company periodo_id p db db'
  unfolding register_proportional_pay
  register_proportional_pay-Kept user empresa_id other_id new_id x a returned =
      Kept-same company periodo_id p db db' a (ground arith) (ground arith)

  register_tax_data-Kept :
      (user : CurrentUser) (empresa_id : Option ℕ) (other_id new_id empleado_id : ℕ)
      (referencia : String) (datos : DatosTributarios)
      → Approved company periodo_id p db
      → register_tax_data user empresa_id other_id new_id empleado_id referencia datos db
        ≡ ok (tt, db')
      → Kept company periodo_id p db db'
  unfolding register_tax_data register_tax_withholding
  register_tax_data-Kept user empresa_id other_id new_id empleado_id referencia datos a returned =
      Kept-same company periodo_id p db db' a (ground arith) (ground arith)

  add_salary_rule-Kept :
      (user : CurrentUser) (empresa_id : Option ℕ) (new_structure_id new_id : ℕ) (r : Rule)
      (row : ReglaSalarial)
      → Approved company periodo_id p db
      → add_salary_rule user empresa_id new_structure_id new_id r db ≡ ok (row, db')
      → Kept company periodo_id p db db'
  unfolding add_salary_rule ensure_structure insert_regla
  add_salary_rule-Kept user empresa_id new_structure_id new_id r row a returned =
      Kept-same company periodo_id p db db' a (ground arith) (ground arith)

  create_legal_rate-Kept :
      (codigo : String) (new_id : ℕ) (x : LegalValueInput) (row : ParametroValor)
      → Approved company periodo_id p db
      → create_legal_rate codigo new_id x db ≡ ok (row, db')
      → Kept company periodo_id p db db'
  unfolding create_legal_rate add_value
  create_legal_rate-Kept codigo new_id x row a returned =
      Kept-same company periodo_id p db db' a (ground arith) (ground arith)

  create_minimum_wage-Kept :
      (new_id : ℕ) (x : LegalValueInput) (row : ParametroValor)
      → Approved company periodo_id p db
      → create_minimum_wage new_id x db ≡ ok (row, db')
      → Kept company periodo_id p db db'
  unfolding create_minimum_wage add_value
  create_minimum_wage-Kept new_id x row a returned =
      Kept-same company periodo_id p db db' a (ground arith) (ground arith)

  approve_period-Kept :
      (user : CurrentUser) (empresa_id : Option ℕ) (now other_id : ℕ)
      → Approved company periodo_id p db
      → approve_period user empresa_id now other_id db ≡ ok (tt, db')
      → Kept company periodo_id p db db'
  unfolding approve_period
  approve_period-Kept user empresa_id now other_id a returned =
      elim (Outcome-cases (tenant user empresa_id)) [
        | inr (e, refused) ↦ absurd_step (ground arith)
        | inl (c, known) ↦ elim (Option-cases (find_first (is_periodo c other_id) db.periodos)) [
          | inl absent ↦ absurd_step (ground arith)
          | inr (p2, found) ↦
              let pending : is_aprobado p2.estado ≡ false = ground arith in
              let away = other_period company periodo_id p db c other_id p2 a found pending in
              let f : PeriodoNomina → PeriodoNomina = λ q. record q {
                estado = Estado.aprobado;
                aprobado_en = some now;
                aprobado_por_id = some user.id;
              } in
              let tables : db'
                  ≡ record db { periodos = update_where (is_periodo c other_id) f db.periodos } =
                ground arith in
              rw tables (record {
                still =
                    Approved-update company periodo_id p db c other_id f _ a away (λ q. refl) refl;
                same_payslips = refl;
              })
        ]
      ]

  calculate_period-Kept :
      (user : CurrentUser) (empresa_id : Option ℕ) (now today : ℕ) (ids : NewIds) (other_id : ℕ)
      (done : List Calculated)
      → Approved company periodo_id p db
      → calculate_period user empresa_id now today ids other_id db ≡ ok (done, db')
      → Kept company periodo_id p db db'
  unfolding calculate_period
  calculate_period-Kept user empresa_id now today ids other_id done a returned =
      elim (Outcome-cases (tenant user empresa_id)) [
        | inr (e, refused) ↦ absurd_step (ground arith)
        | inl (c, known) ↦ Written-Kept user now today ids other_id c done a (
            calculate_period-Written user empresa_id now today ids other_id c db db' done known
              returned)
      ]

  Step-Kept : Approved company periodo_id p db → Step db db' → Kept company periodo_id p db db'
  Step-Kept a (opened user empresa_id new_id gestion mes row _ returned) =
      open_period-Kept user empresa_id new_id gestion mes row a returned
  Step-Kept a (withheld user empresa_id other_id new_id x _ returned) =
      register_tax_withholding-Kept user empresa_id other_id new_id x a returned
  Step-Kept a (paid_partly user empresa_id other_id new_id x _ returned) =
      register_proportional_pay-Kept user empresa_id other_id new_id x a returned
  Step-Kept a (approved user empresa_id now other_id _ returned) =
      approve_period-Kept user empresa_id now other_id a returned
  Step-Kept a (calculated user empresa_id now today ids other_id done _ returned) =
      calculate_period-Kept user empresa_id now today ids other_id done a returned
  Step-Kept a
        (tax_data_given user empresa_id other_id new_id empleado_id referencia datos _ returned) =
      register_tax_data-Kept user empresa_id other_id new_id empleado_id referencia datos a returned
  Step-Kept a (rule_added user empresa_id new_structure_id new_id r row _ returned) =
      add_salary_rule-Kept user empresa_id new_structure_id new_id r row a returned
  Step-Kept a (rate_created codigo new_id x row _ returned) =
      create_legal_rate-Kept codigo new_id x row a returned
  Step-Kept a (wage_created new_id x row _ returned) =
      create_minimum_wage-Kept new_id x row a returned

-- Any number of requests, one after the other.
pub data Steps : NominaDb → NominaDb → Type 0 where
  stay : (db : NominaDb) → Steps db db
  then_step : (db mid db' : NominaDb) → Step db mid → Steps mid db' → Steps db db'

-- Once a period is approved, no sequence of requests changes it or its payslips.
pub Steps-Kept :
    (company periodo_id : ℕ) (p : PeriodoNomina) (db db' : NominaDb)
    → Approved company periodo_id p db
    → Steps db db'
    → Kept company periodo_id p db db'
Steps-Kept company periodo_id p db _ a (stay _) = record { still = a; same_payslips = refl }
Steps-Kept company periodo_id p db db' a (then_step _ mid _ one more) =
    let k = Step-Kept company periodo_id p db mid a one in
    let later = Steps-Kept company periodo_id p mid db' k.still more in
    record { still = later.still; same_payslips = later.same_payslips ∙ k.same_payslips }
