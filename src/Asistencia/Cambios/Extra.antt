-- ===== src/Asistencia/Cambios/Extra.antt =====
-- What a request about overtime has changed.
use backend_ssas_rrhh.Base.{
  ℕ, ◌≤◌, ◌≡◌, refl, ◌⊎◌, inl, inr, true, false, Option, none, some, String, ◌==◌, same_key,
  is_some, any, find_first, add_row, ok, arith, Bool-cases, Outcome-cases,
}
use backend_ssas_rrhh.Reclutamiento.Lookup.{update_key}
use backend_ssas_rrhh.Reclutamiento.Keys.{or_raise-found}
use backend_ssas_rrhh.Personal.Rows.{http, User, Calendario, user_tenant, own_employee}
use backend_ssas_rrhh.Asistencia.Rows.{
  Fichaje, Autorizacion, EstadoExtra, AsistenciaDb, fichaje_key, autorizacion_key,
  is_jefe_pendiente, is_rrhh_pendiente,
}
use backend_ssas_rrhh.Asistencia.Horas.{date_of}
use backend_ssas_rrhh.Asistencia.Lookup.{attendance, current_boss, asks_for, is_of}
use backend_ssas_rrhh.Asistencia.Decisiones.{BossDecision}
use backend_ssas_rrhh.Asistencia.Extras.{
  OvertimeInput, with_jefe, overtime_request, request_overtime, decide_overtime_boss,
}
use backend_ssas_rrhh.Asistencia.Rrhh.{
  HrDecision, with_rrhh, is_own, check_overtime, authorized_pay, decide_overtime_hr,
}

-- The tables that a request about overtime leaves alone.
pub record SameRows (db db' : AsistenciaDb) : Type 0 where
  pub personal : db'.personal ≡ db.personal
  pub periodos : db'.periodos ≡ db.periodos
  pub asistencias : db'.asistencias ≡ db.asistencias
  pub correcciones : db'.correcciones ≡ db.correcciones

pub record Claimed (a : Autorizacion) (db db' : AsistenciaDb) : Type 0 where
  pub row : Fichaje
  pub found : find_first (λ r. fichaje_key r == a.asistencia_id) db.asistencias ≡ some row
  pub left : is_some row.hora_salida ≡ true
  pub within : a.horas_solicitadas ≤ row.horas_extra
  pub waits : a.estado ≡ EstadoExtra.jefe_pendiente
  pub first : any (is_of a.asistencia_id) db.autorizaciones ≡ false
  pub free : any (asks_for a.asistencia_id) db.correcciones ≡ false
  pub requests : db'.autorizaciones ≡ add_row a db.autorizaciones
  pub others : SameRows db db'

pub request_overtime-Claimed :
    (cal : Calendario) (user : User) (new_id : ℕ) (x : OvertimeInput) (a : Autorizacion)
    (db db' : AsistenciaDb)
    → request_overtime cal user new_id x db ≡ ok (a, db')
    → Claimed a db db'
unfolding request_overtime
request_overtime-Claimed cal user new_id x a db db' returned =
    elim (Outcome-cases (own_employee user db.personal)) [
      | inr (e, failed) ↦ absurd (ground arith)
      | inl ((company, worker), own) ↦
          elim (Outcome-cases (attendance company x.asistencia_id db)) [
            | inr (e, failed) ↦ absurd (ground arith)
            | inl (row, there) ↦
                let (found, key, passes) =
                  or_raise-found fichaje_key x.asistencia_id
                    (λ (s : Fichaje). s.empresa_id == company) db.asistencias
                    (http 404 "Asistencia no encontrada") {x = row} there in
                record {
                  row = row;
                  found = ground arith;
                  left = ground arith;
                  within = ground arith;
                  waits = ground arith;
                  first = ground arith;
                  free = ground arith;
                  requests = ground arith;
                  others = ground arith;
                }
          ]
    ]

-- One request is found by its key and changed by `f`.
pub record Reviewed (request : Autorizacion) (f : Autorizacion → Autorizacion)
    (db db' : AsistenciaDb) : Type 0 where
  pub found : find_first (λ a. autorizacion_key a == request.id) db.autorizaciones ≡ some request
  pub requests : db'.autorizaciones ≡ update_key autorizacion_key request.id f db.autorizaciones
  pub others : SameRows db db'

overtime_request-found :
    (company id : ℕ) (request : Autorizacion) (db : AsistenciaDb)
    → overtime_request company id db ≡ ok request
    → (find_first (λ a. autorizacion_key a == request.id) db.autorizaciones ≡ some request)
      × (request.empresa_id ≡ company)
overtime_request-found company id request db there =
    let (found, key, passes) =
      or_raise-found autorizacion_key id (λ (a : Autorizacion). a.empresa_id == company)
        db.autorizaciones (http 404 "Solicitud no encontrada") {x = request} there in
    (ground arith, ground arith)

current_boss-other :
    (user : User) (company target_id today : ℕ) (db : AsistenciaDb)
    → user_tenant user none ≡ ok company
    → current_boss user company target_id today db ≡ ok tt
    → is_own company user.id target_id db.personal ≡ false
unfolding user_tenant current_boss own_employee
current_boss-other user company target_id today db tenant leads_it = ground arith

-- The head has confirmed or refused.
pub decide_overtime_boss-Reviewed :
    (wall : ℕ → ℕ) (cal : Calendario) (user : User) (now id : ℕ) (x : BossDecision)
    (a : Autorizacion) (db db' : AsistenciaDb)
    → decide_overtime_boss wall cal user now id x db ≡ ok (a, db')
    → (request : Autorizacion) × Reviewed request (with_jefe user now x) db db'
      × (is_jefe_pendiente request.estado ≡ true)
      × (is_own request.empresa_id user.id request.empleado_id db.personal ≡ false)
unfolding decide_overtime_boss
decide_overtime_boss-Reviewed wall cal user now id x a db db' returned =
    elim (Outcome-cases (user_tenant user none)) [
      | inr (e, failed) ↦ absurd (ground arith)
      | inl (company, tenant) ↦ elim (Outcome-cases (overtime_request company id db)) [
        | inr (e, failed) ↦ absurd (ground arith)
        | inl (request, there) ↦
            let (found, own) = overtime_request-found company id request db there in
            elim (Outcome-cases
              (current_boss user company request.empleado_id (date_of (wall now)) db)) [
                | inr (e, failed) ↦ absurd (ground arith)
                | inl (u, boss) ↦
                    elim (Outcome-cases (attendance company request.asistencia_id db)) [
                      | inr (e, failed) ↦ absurd (ground arith)
                      | inl (row, stands) ↦ (
                        request,
                        record { found = found; requests = ground arith; others = ground arith },
                        ground arith,
                        rw own (
                            current_boss-other user company request.empleado_id (date_of (wall now))
                              db tenant boss),
                      )
                    ]
              ]
      ]
    ]

pub check_overtime-found :
    (cal : Calendario) (user : User) (id company : ℕ) (request : Autorizacion) (row : Fichaje)
    (db : AsistenciaDb)
    → check_overtime cal user id db ≡ ok (company, request, row)
    → (find_first (λ a. autorizacion_key a == request.id) db.autorizaciones ≡ some request)
      × (is_rrhh_pendiente request.estado ≡ true)
      × (same_key request.jefe_id (some user.id) ≡ false)
      × (is_own request.empresa_id user.id request.empleado_id db.personal ≡ false)
unfolding check_overtime
check_overtime-found cal user id company request row db passed =
    elim (Outcome-cases (user_tenant user none)) [
      | inr (e, failed) ↦ absurd (ground arith)
      | inl (own, tenant) ↦ elim (Outcome-cases (overtime_request own id db)) [
        | inr (e, failed) ↦ absurd (ground arith)
        | inl (a, there) ↦
            let (found, of_company) = overtime_request-found own id a db there in
            let same : a ≡ request = ground arith in
            let passed' : check_overtime cal user id db ≡ ok (company, a, row) = rw same passed in
            rw (← same) (found, ground arith, ground arith, rw of_company (ground arith))
      ]
    ]

-- The final decision: a refusal, or an authorisation with an amount.
pub record Closed (user : User) (now : ℕ) (x : HrDecision) (db db' : AsistenciaDb) : Type 0 where
  pub request : Autorizacion
  pub estado : EstadoExtra
  pub monto : Option ℕ
  pub referencia : Option String
  pub reviewed : Reviewed request (with_rrhh user now x estado monto referencia) db db'
  pub waits : is_rrhh_pendiente request.estado ≡ true
  pub another : same_key request.jefe_id (some user.id) ≡ false
  pub not_own : is_own request.empresa_id user.id request.empleado_id db.personal ≡ false
  pub result :
      (estado ≡ EstadoExtra.rechazado)
      ⊎ ((estado ≡ EstadoExtra.autorizado) × (is_some monto ≡ true))

pub decide_overtime_hr-Closed :
    (wall : ℕ → ℕ) (cal : Calendario) (user : User) (now id : ℕ) (x : HrDecision) (a : Autorizacion)
    (db db' : AsistenciaDb)
    → decide_overtime_hr wall cal user now id x db ≡ ok (a, db')
    → Closed user now x db db'
unfolding decide_overtime_hr
decide_overtime_hr-Closed wall cal user now id x a db db' returned =
    elim (Outcome-cases (check_overtime cal user id db)) [
      | inr (e, failed) ↦ absurd (ground arith)
      | inl ((company, request, row), passed) ↦
          let (found, waits, another, not_own) =
            check_overtime-found cal user id company request row db passed in
          elim (Bool-cases x.aprobar) [
            | inr refused ↦ record {
              request = request;
              estado = EstadoExtra.rechazado;
              monto = request.monto_autorizado;
              referencia = request.referencia_calculo;
              reviewed = record { found = found; requests = ground arith; others = ground arith };
              waits = waits;
              another = another;
              not_own = not_own;
              result = inl refl;
            }
            | inl approved ↦ elim (Outcome-cases (authorized_pay wall company x request row db)) [
              | inr (e, failed) ↦ absurd (ground arith)
              | inl ((amount, text), paid) ↦ record {
                request = request;
                estado = EstadoExtra.autorizado;
                monto = some amount;
                referencia = some text;
                reviewed = record { found = found; requests = ground arith; others = ground arith };
                waits = waits;
                another = another;
                not_own = not_own;
                result = inr (refl, refl);
              }
            ]
          ]
    ]
