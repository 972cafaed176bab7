-- ===== src/Personal/Contratos.antt =====
-- The versions of a contract: `create_contract` of src/ssas/personal/infrastructure/http/router.py.
use backend_ssas_rrhh.Base.{
  ℕ, ◌-◌, Bool, true, false, not, ◌&&◌, ◌||◌, Option, none, some, List, [], ◌∷◌, String, ◌==◌, ltb,
  leb, str_eq, any, find_first, add_row, Outcome, ok, ◌>>=◌, ◌>>◌, raise_if, if◌then◌else◌,
}
use backend_ssas_rrhh.Session.{Handler}
use backend_ssas_rrhh.Reclutamiento.Lookup.{find_key}
use backend_ssas_rrhh.Personal.Rows.{
  HttpError, http, User, Contrato, EstadoContrato, Cargo, BoletaAprobada, PersonalDb, Calendario,
  is_vigente_contrato, user_tenant, employee,
}

-- `ContractInput`
pub record ContractInput : Type 0 where
  pub numero_contrato : String
  pub cargo_id : ℕ
  pub departamento_id : ℕ
  pub jefe_directo_id : Option ℕ
  pub hora_entrada_programada : ℕ
  pub horas_jornada : ℕ
  pub minutos_descanso : ℕ
  pub salario_basico : ℕ
  pub fecha_inicio : ℕ
  pub fecha_fin : Option ℕ

-- The table with the first row that passes changed: the row that the query gave.
abbrev pub update_first {ℓ} : {A : Type ℓ} → (A → Bool) → (A → A) → List A → List A
update_first p f [] = []
update_first p f (x ∷ xs) = let rest = update_first p f xs in if p x then f x ∷ xs else x ∷ rest

-- The contract of the worker that is in force.
abbrev pub vigente_of : ℕ → ℕ → Contrato → Bool
vigente_of company empleado_id c =
    c.empresa_id == company && c.empleado_id == empleado_id && is_vigente_contrato c.estado

-- The position and the department are of the company, and of one another.
abbrev pub fits : Option Cargo → Option Cargo → Bool
fits none department = false
fits (some cargo) none = false
fits (some cargo) (some department) = elim cargo.departamento_id [
  | none ↦ true
  | some id ↦ id == department.id
]

abbrev own_row : ℕ → ℕ → List Cargo → Option Cargo
own_row company id rows = find_key (λ (c : Cargo). c.id) id (λ c. c.empresa_id == company) rows

abbrev ends_before : Option ℕ → ℕ → Bool
ends_before none inicio = false
ends_before (some fin) inicio = ltb fin inicio

unfoldable pub check_boss : ℕ → ℕ → Option ℕ → PersonalDb → Outcome HttpError (Unit {0})
check_boss company empleado_id none db = ok tt
check_boss company empleado_id (some jefe) db = do
  employee company jefe db
  raise_if (jefe == empleado_id) (http 422 "El empleado no puede ser su propio jefe")

-- An approved payslip of the worker, of the month of this day or a later one.
abbrev pub is_paid : Calendario → ℕ → ℕ → ℕ → BoletaAprobada → Bool
is_paid cal company empleado_id inicio b =
    b.empresa_id == company
    && b.empleado_id == empleado_id
    && (ltb (cal.year inicio) b.gestion
        || (b.gestion == cal.year inicio && leb (cal.month inicio) b.mes))

abbrev pub with_reemplazo : ℕ → Contrato → Contrato
with_reemplazo inicio c = record c {
  fecha_fin = some (inicio - 1);
  estado = EstadoContrato.reemplazado;
}

-- The replaced version and the new one.
abbrev pub current_id : Option Contrato → Option ℕ
current_id none = none
current_id (some c) = some c.id

-- `"VIGENTE"` without an end before today.
abbrev pub initial_state : ℕ → Option ℕ → EstadoContrato
initial_state today none = EstadoContrato.vigente
initial_state today (some fin) =
    if leb today fin then EstadoContrato.vigente else EstadoContrato.vencido

abbrev pub new_contrato : ℕ → ℕ → ℕ → ℕ → Option Contrato → ContractInput → Contrato
new_contrato new_id company empleado_id today current x = record {
  id = new_id;
  empresa_id = company;
  empleado_id = empleado_id;
  cargo_id = x.cargo_id;
  departamento_id = x.departamento_id;
  jefe_directo_id = x.jefe_directo_id;
  contrato_anterior_id = current_id current;
  numero_contrato = x.numero_contrato;
  hora_entrada_programada = x.hora_entrada_programada;
  horas_jornada = x.horas_jornada;
  minutos_descanso = x.minutos_descanso;
  salario_basico = x.salario_basico;
  fecha_inicio = x.fecha_inicio;
  fecha_fin = x.fecha_fin;
  estado = initial_state today x.fecha_fin;
}

abbrev pub starts_late : ContractInput → Option Contrato → Bool
starts_late x none = false
starts_late x (some current) = leb x.fecha_inicio current.fecha_inicio

-- Everything that is asked before the rows change.
unfoldable pub check_contract :
    Calendario → ℕ → ℕ → ContractInput → PersonalDb → Outcome HttpError (Unit {0})
check_contract cal company empleado_id x db = do
  target ← employee company empleado_id db
  raise_if (not (str_eq target.estado "ACTIVO") || ltb x.fecha_inicio target.fecha_ingreso)
      (http 409 "El empleado debe estar activo y la fecha debe ser valida")
  raise_if (ends_before x.fecha_fin x.fecha_inicio) (http 422 "La fecha final precede el inicio")
  raise_if
      (not (
        fits (own_row company x.cargo_id db.cargos)
          (own_row company x.departamento_id db.departamentos)))
      (http 422 "Cargo y departamento deben pertenecer a la misma empresa")
  check_boss company empleado_id x.jefe_directo_id db
  raise_if (starts_late x (find_first (vigente_of company empleado_id) db.contratos))
      (http 409 "La nueva version debe comenzar despues de la anterior")
  raise_if (any (is_paid cal company empleado_id x.fecha_inicio) db.boletas_aprobadas)
      (http 409 "No se puede alterar un periodo con nomina aprobada")
  raise_if
      (any (λ (c : Contrato). c.empresa_id == company && str_eq c.numero_contrato x.numero_contrato)
        db.contratos)
      (http 500 "Internal Server Error")

-- The last check is the unique index on the number, whose refusal nothing catches.
unfoldable pub create_contract :
    Calendario → User → Option ℕ → ℕ → ℕ → ℕ → ContractInput → Handler PersonalDb HttpError Contrato
create_contract cal user empresa_id today new_id empleado_id x db = do
  company ← user_tenant user empresa_id
  check_contract cal company empleado_id x db
  let current = find_first (vigente_of company empleado_id) db.contratos
  let row = new_contrato new_id company empleado_id today current x
  ok (
    row,
    record db {
      contratos = add_row row (
          update_first (vigente_of company empleado_id) (with_reemplazo x.fecha_inicio)
            db.contratos);
    },
  )
