-- ===== src/Personal/Terminos.antt =====
-- The terms of a worker in a month whose payroll is approved.
use backend_ssas_rrhh.Base.{
  ℕ, ◌+◌, ◌≡◌, ◌<◌, refl, ◌∙◌, Bool, true, false, ◌&&◌, ◌||◌, Option, none, some, List, [], ◌∷◌,
  map, ◌==◌, leb, ltb, any, find_first, where_rows, add_row, ok, arith,
}
use backend_ssas_rrhh.Personal.Rows.{
  User, Contrato, EstadoContrato, BoletaAprobada, PersonalDb, Calendario, user_tenant,
}
use backend_ssas_rrhh.Personal.Contratos.{
  ContractInput, update_first, vigente_of, is_paid, with_reemplazo, create_contract,
}
use backend_ssas_rrhh.Personal.Versiones.{create_contract-Created}

-- The contract of the worker covers the day.
abbrev pub covers : ℕ → ℕ → ℕ → Contrato → Bool
covers company empleado_id day c =
    c.empresa_id == company
    && c.empleado_id == empleado_id
    && leb c.fecha_inicio day
    && (elim c.fecha_fin [ none ↦ true | some fin ↦ leb day fin ])

-- A contract without its end and its state, the columns that its replacement writes.
abbrev pub terms : Contrato → Contrato
terms c = record c { fecha_fin = none; estado = EstadoContrato.reemplazado }

-- The contracts that cover the day, with all their terms.
abbrev pub terms_on : ℕ → ℕ → ℕ → List Contrato → List Contrato
terms_on company empleado_id day rows = map terms (where_rows (covers company empleado_id day) rows)

-- A contract in force that did not end before the new one begins.
abbrev pub unbroken : ℕ → Option Contrato → Bool
unbroken inicio none = true
unbroken inicio (some c) = elim c.fecha_fin [ none ↦ true | some fin ↦ leb inicio (fin + 1) ]

-- Dates of a later month are later, as `date` orders them.
abbrev pub Ordered : Calendario → Type 0
Ordered cal =
    (a b : ℕ)
    → (ltb a b
        || ltb (cal.year b) (cal.year a)
        || (cal.year b == cal.year a && leb (cal.month b) (cal.month a)))
      ≡ true

abbrev pub is_boleta_of : ℕ → ℕ → ℕ → ℕ → BoletaAprobada → Bool
is_boleta_of company empleado_id gestion mes b =
    b.empresa_id == company && b.empleado_id == empleado_id && b.gestion == gestion && b.mes == mes

terms_on-add_row :
    (company w day : ℕ) (row : Contrato) (rows : List Contrato)
    → day < row.fecha_inicio
    → terms_on company w day (add_row row rows) ≡ terms_on company w day rows
terms_on-add_row company w day row [] later = ground arith
terms_on-add_row company w day row (r ∷ rows) later =
    ground (arith, terms_on-add_row company w day row rows later)

terms_on-update_first :
    (company w day inicio : ℕ) (rows : List Contrato)
    → day < inicio
    → unbroken inicio (find_first (vigente_of company w) rows) ≡ true
    → terms_on company w day (update_first (vigente_of company w) (with_reemplazo inicio) rows)
      ≡ terms_on company w day rows
terms_on-update_first company w day inicio [] later open_ = refl
terms_on-update_first company w day inicio (r ∷ rows) later open_ =
    ground (arith, terms_on-update_first company w day inicio rows later)

-- The day of an approved payslip comes before a contract that was accepted.
paid_before :
    (cal : Calendario) (company w day inicio : ℕ) (boletas : List BoletaAprobada)
    → Ordered cal
    → any (is_boleta_of company w (cal.year day) (cal.month day)) boletas ≡ true
    → any (is_paid cal company w inicio) boletas ≡ false
    → day < inicio
paid_before cal company w day inicio [] ordered paid unpaid = ground arith
paid_before cal company w day inicio (b ∷ boletas) ordered paid unpaid =
    let order = ordered day inicio in
    ground (arith, paid_before cal company w day inicio boletas ordered)

-- A new version of a contract that is accepted leaves the terms of a day whose month the worker has an
-- approved payslip for: the same contracts cover it, with the same pay and other columns, except for
-- the end and the state of a contract. The version that it replaces has not ended before the new one
-- begins, and the calendar orders its months.
pub create_contract-approved_terms :
    (cal : Calendario) (user : User) (empresa_id : Option ℕ) (company today new_id w day : ℕ)
    (x : ContractInput) (row : Contrato) (db db' : PersonalDb)
    → Ordered cal
    → user_tenant user empresa_id ≡ ok company
    → unbroken x.fecha_inicio (find_first (vigente_of company w) db.contratos) ≡ true
    → any (is_boleta_of company w (cal.year day) (cal.month day)) db.boletas_aprobadas ≡ true
    → create_contract cal user empresa_id today new_id w x db ≡ ok (row, db')
    → terms_on company w day db'.contratos ≡ terms_on company w day db.contratos
create_contract-approved_terms cal user empresa_id company today new_id w day x row db db' ordered
      target open_ paid returned =
    let made =
      create_contract-Created cal user empresa_id company today new_id w x row db db' target
        returned in
    let before =
      paid_before cal company w day x.fecha_inicio db.boletas_aprobadas ordered paid made.unpaid in
    let start = made.inicio in
    rw made.rows (
      terms_on-add_row company w day row _ (omega (arith, before, start))
      ∙ terms_on-update_first company w day x.fecha_inicio db.contratos before open_)
