-- ===== src/Personal/Ausencias.antt =====
-- The balances and the types of leave: `assign_vacation_balance`, `create_absence_type` and
-- `update_absence_type` of src/ssas/personal/infrastructure/http/router.py.
use backend_ssas_rrhh.Base.{
  ℕ, Bool, true, false, not, ◌&&◌, ◌||◌, Option, none, some, String, ◌==◌, ltb, str_eq, same_key,
  any, find_first, update_where, add_row, ok, ◌>>=◌, ◌>>◌, raise_if, or_raise,
}
use backend_ssas_rrhh.Session.{Handler}
use backend_ssas_rrhh.Reclutamiento.Lookup.{find_key, update_key}
use backend_ssas_rrhh.Personal.Rows.{
  HttpError, http, User, TipoAusencia, SaldoVacacion, Solicitud, PersonalDb, user_tenant, employee,
}

abbrev pub tipo_key : TipoAusencia → ℕ
tipo_key t = t.id

abbrev pub solicitud_key : Solicitud → ℕ
solicitud_key s = s.id

-- The balance of a worker for a year; the table has one.
abbrev pub is_saldo : ℕ → ℕ → ℕ → SaldoVacacion → Bool
is_saldo company empleado_id gestion b =
    b.empresa_id == company && b.empleado_id == empleado_id && b.gestion == gestion

abbrev pub with_asignados : ℕ → SaldoVacacion → SaldoVacacion
with_asignados dias b = record b { dias_asignados = dias }

abbrev pub new_saldo : ℕ → ℕ → ℕ → ℕ → ℕ → SaldoVacacion
new_saldo new_id company empleado_id gestion dias = record {
  id = new_id;
  empresa_id = company;
  empleado_id = empleado_id;
  gestion = gestion;
  dias_asignados = dias;
  dias_usados = 0;
}

-- `VacationBalanceInput` is `gestion_payload` and `dias_asignados`.
unfoldable pub assign_vacation_balance :
    User → Option ℕ → ℕ → ℕ → ℕ → ℕ → ℕ → Handler PersonalDb HttpError (Unit {0})
assign_vacation_balance user empresa_id new_id empleado_id gestion gestion_payload dias_asignados
      db =
    do
      company ← user_tenant user empresa_id
      employee company empleado_id db
      raise_if (not (gestion == gestion_payload)) (http 422 "La gestion no coincide")
      elim (find_first (is_saldo company empleado_id gestion) db.saldos) [
        | none ↦ ok (
          tt,
          record db {
            saldos =
                add_row (new_saldo new_id company empleado_id gestion dias_asignados) db.saldos;
          },
        )
        | some row ↦
            raise_if (ltb dias_asignados row.dias_usados)
              (http 409 "No se puede reducir el saldo por debajo de lo ya utilizado")
            >> ok (
              tt,
              record db {
                saldos =
                    update_where (is_saldo company empleado_id gestion)
                      (with_asignados dias_asignados) db.saldos;
              },
            )
      ]

-- `AbsenceTypeInput`
pub record AbsenceTypeInput : Type 0 where
  pub codigo : String
  pub nombre : String
  pub es_remunerado : Bool
  pub descuenta_vacacion : Bool
  pub requiere_documento : Bool
  pub dias_maximos_anio : Option ℕ

abbrev new_tipo : ℕ → ℕ → AbsenceTypeInput → TipoAusencia
new_tipo new_id company x = record {
  id = new_id;
  empresa_id = company;
  codigo = x.codigo;
  nombre = x.nombre;
  es_remunerado = x.es_remunerado;
  descuenta_vacacion = x.descuenta_vacacion;
  requiere_documento = x.requiere_documento;
  dias_maximos_anio = x.dias_maximos_anio;
  activo = true;
}

-- `uq_tipo_ausencia_codigo` refuses a second row of the code.
unfoldable pub create_absence_type :
    User → Option ℕ → ℕ → AbsenceTypeInput → Handler PersonalDb HttpError TipoAusencia
create_absence_type user empresa_id new_id x db = do
  company ← user_tenant user empresa_id
  raise_if (x.descuenta_vacacion && not x.es_remunerado)
      (http 422 "Una ausencia que descuenta vacaciones debe ser remunerada")
  raise_if
      (any (λ (t : TipoAusencia). t.empresa_id == company && str_eq t.codigo x.codigo) db.tipos)
      (http 409 "Ya existe ese código en la empresa")
  let row = new_tipo new_id company x
  ok (row, record db { tipos = add_row row db.tipos })

-- `AbsenceTypeUpdate`
pub record AbsenceTypeUpdate : Type 0 where
  pub nombre : String
  pub es_remunerado : Bool
  pub descuenta_vacacion : Bool
  pub requiere_documento : Bool
  pub dias_maximos_anio : Option ℕ
  pub activo : Bool

abbrev same_bool : Bool → Bool → Bool
same_bool true b = b
same_bool false b = not b

-- A rule of the type would change.
abbrev pub changes_rules : AbsenceTypeUpdate → TipoAusencia → Bool
changes_rules x t =
    not (same_bool t.es_remunerado x.es_remunerado)
    || not (same_bool t.descuenta_vacacion x.descuenta_vacacion)
    || not (same_bool t.requiere_documento x.requiere_documento)
    || not (same_key t.dias_maximos_anio x.dias_maximos_anio)

abbrev pub with_reglas : AbsenceTypeUpdate → TipoAusencia → TipoAusencia
with_reglas x t = record t {
  nombre = x.nombre;
  es_remunerado = x.es_remunerado;
  descuenta_vacacion = x.descuenta_vacacion;
  requiere_documento = x.requiere_documento;
  dias_maximos_anio = x.dias_maximos_anio;
  activo = x.activo;
}

unfoldable pub update_absence_type :
    User → Option ℕ → ℕ → AbsenceTypeUpdate → Handler PersonalDb HttpError TipoAusencia
update_absence_type user empresa_id tipo_id x db = do
  company ← user_tenant user empresa_id
  row ←
      or_raise (find_key tipo_key tipo_id (λ t. t.empresa_id == company) db.tipos)
        (http 404 "Tipo de ausencia no encontrado")
  raise_if (x.descuenta_vacacion && not x.es_remunerado)
      (http 422 "Una ausencia que descuenta vacaciones debe ser remunerada")
  raise_if
      (any (λ (s : Solicitud). s.tipo_ausencia_id == row.id && s.empresa_id == company)
          db.solicitudes
        && changes_rules x row)
      (http 409 "Este tipo ya tiene solicitudes; sus reglas no se pueden cambiar")
  ok (with_reglas x row, record db { tipos = update_key tipo_key tipo_id (with_reglas x) db.tipos })
