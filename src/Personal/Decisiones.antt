-- ===== src/Personal/Decisiones.antt =====
-- The decision on a leave: `decide_absence` of src/ssas/personal/infrastructure/http/router.py.
use backend_ssas_rrhh.Base.{
  ℕ, ◌+◌, Bool, true, false, not, ◌&&◌, Option, none, some, List, String, ◌==◌, ltb, same_key,
  member, any, find_first, update_where, Outcome, ok, err, ◌>>=◌, ◌>>◌, raise_if, or_raise,
  if◌then◌else◌,
}
use backend_ssas_rrhh.Session.{Handler}
use backend_ssas_rrhh.Reclutamiento.Lookup.{find_key, update_key}
use backend_ssas_rrhh.Personal.Rows.{
  HttpError, http, User, Trabajador, Contrato, TipoAusencia, SaldoVacacion, Solicitud,
  EstadoSolicitud, PersonalDb, Calendario, is_vigente_contrato, is_pendiente_solicitud, user_tenant,
  employee,
}
use backend_ssas_rrhh.Personal.Ausencias.{tipo_key, solicitud_key, is_saldo}

-- `AbsenceDecision`
pub record AbsenceDecision : Type 0 where
  pub aprobar : Bool
  pub observacion : Option String
  pub dias_habiles_vacacion : Option ℕ

-- `"JEFE_AREA" in roles and "RRHH" not in roles and "ADMIN_EMPRESA" not in roles`
abbrev pub only_leader : List String → Bool
only_leader roles =
    member "JEFE_AREA" roles && not (member "RRHH" roles) && not (member "ADMIN_EMPRESA" roles)

-- The user leads the worker by a contract that is in force.
abbrev pub manages : ℕ → ℕ → ℕ → PersonalDb → Bool
manages company user_id empleado_id db =
    elim (find_first
      (λ (t : Trabajador). t.empresa_id == company && same_key t.usuario_id (some user_id))
      db.trabajadores) [
        | none ↦ false
        | some leader ↦
            any
              (λ (c : Contrato).
                c.empresa_id == company
                && c.empleado_id == empleado_id
                && same_key c.jefe_directo_id (some leader.id)
                && is_vigente_contrato c.estado)
              db.contratos
      ]

-- `payload.aprobar and kind.descuenta_vacacion`; without the row of the type the attribute fails.
abbrev pub discounts : Bool → Option TipoAusencia → Outcome HttpError Bool
discounts false kind = ok false
discounts true none = err (http 500 "Internal Server Error")
discounts true (some kind) = ok kind.descuenta_vacacion

-- The verified days, at most those of the leave.
abbrev pub verified_days : Option ℕ → ℕ → Outcome HttpError ℕ
verified_days none solicitados = err (http 422 "Indica los dias habiles de vacacion verificados")
verified_days (some d) solicitados =
    raise_if (ltb solicitados d) (http 422 "Indica los dias habiles de vacacion verificados")
    >> ok d

abbrev pub with_usados : ℕ → SaldoVacacion → SaldoVacacion
with_usados d b = record b { dias_usados = b.dias_usados + d }

-- The days that an approval takes from the balance of the year.
unfoldable pub take_days : Calendario → ℕ → Solicitud → Option ℕ → Handler PersonalDb HttpError ℕ
take_days cal company row dias_habiles db = do
  raise_if (not (cal.year row.fecha_inicio == cal.year row.fecha_fin))
      (http 422 "Una vacacion no puede cruzar gestiones en una solicitud")
  d ← verified_days dias_habiles row.dias_solicitados
  balance ←
      or_raise (find_first (is_saldo company row.empleado_id (cal.year row.fecha_inicio)) db.saldos)
        (http 409 "Saldo de vacaciones insuficiente")
  raise_if (ltb balance.dias_asignados (balance.dias_usados + d))
      (http 409 "Saldo de vacaciones insuficiente")
  ok (
    d,
    record db {
      saldos =
          update_where (is_saldo company row.empleado_id (cal.year row.fecha_inicio))
            (with_usados d) db.saldos;
    },
  )

abbrev pub resolved : User → ℕ → AbsenceDecision → Option ℕ → Solicitud → Solicitud
resolved user now x descontados s = record s {
  estado = if x.aprobar then EstadoSolicitud.aprobada else EstadoSolicitud.rechazada;
  dias_descontados = descontados;
  observacion_jefe = x.observacion;
  resuelto_por_id = some user.id;
  resuelto_en = some now;
}

-- The row in its new state.
abbrev settle_request :
    User
    → ℕ
    → AbsenceDecision
    → Option ℕ
    → Solicitud
    → PersonalDb
    → Outcome HttpError (Solicitud × PersonalDb)
settle_request user now x descontados row db = ok (
  resolved user now x descontados row,
  record db {
    solicitudes = update_key solicitud_key row.id (resolved user now x descontados) db.solicitudes;
  },
)

-- The checks before the decision: the request, which waits for one, of another person.
unfoldable pub check_decision : User → ℕ → ℕ → PersonalDb → Outcome HttpError Solicitud
check_decision user company solicitud_id db = do
  row ←
      or_raise
        (find_key solicitud_key solicitud_id (λ (s : Solicitud). s.empresa_id == company)
          db.solicitudes)
        (http 404 "Solicitud no encontrada")
  raise_if (not (is_pendiente_solicitud row.estado)) (http 409 "Solicitud ya resuelta")
  target ← employee company row.empleado_id db
  raise_if (same_key target.usuario_id (some user.id))
      (http 403 "No puedes aprobar tu propia ausencia")
  raise_if (only_leader user.roles && not (manages company user.id target.id db))
      (http 403 "No perteneces a la jefatura de este empleado")
  ok row

unfoldable pub decide_absence :
    Calendario → User → Option ℕ → ℕ → ℕ → AbsenceDecision → Handler PersonalDb HttpError Solicitud
decide_absence cal user empresa_id now solicitud_id x db = do
  company ← user_tenant user empresa_id
  row ← check_decision user company solicitud_id db
  vacation ← discounts x.aprobar (
      find_key tipo_key row.tipo_ausencia_id (λ (t : TipoAusencia). t.empresa_id == company)
        db.tipos)
  elim vacation [
    | false ↦ settle_request user now x row.dias_descontados row db
    | true ↦ take_days cal company row x.dias_habiles_vacacion db >>= λ (d, db').
        settle_request user now x (some d) row db'
  ]
