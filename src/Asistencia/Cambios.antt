-- ===== src/Asistencia/Cambios.antt =====
-- What a request about attendance that returned has changed.
pub mod Decidida
pub mod Resuelta
pub mod Extra
use backend_ssas_rrhh.Base.{
  ℕ, ◌≡◌, refl, sym, ap, ◌∙◌, inl, inr, Bool, true, false, not, ◌&&◌, Option, none, some, List, [],
  ◌∷◌, String, ◌==◌, ltb, leb, is_some, any, find_first, where_rows, add_row, Outcome, ok, err,
  ◌>>=◌, or_raise, raise_if, arith, Bool-cases, Option-cases, Outcome-cases,
}
use backend_ssas_rrhh.Reclutamiento.Lookup.{find_key, update_key}
use backend_ssas_rrhh.Reclutamiento.Keys.{or_raise-found}
use backend_ssas_rrhh.Personal.Rows.{
  HttpError, http, User, Trabajador, Contrato, Calendario, is_vigente_contrato,
  is_pendiente_solicitud, user_tenant, own_employee,
}
use backend_ssas_rrhh.Asistencia.Rows.{
  Fichaje, Correccion, Autorizacion, AsistenciaDb, fichaje_key, correccion_key, autorizacion_key,
}
use backend_ssas_rrhh.Asistencia.Horas.{worked_hours, minutes_late}
use backend_ssas_rrhh.Asistencia.Lookup.{
  attendance, current_boss, covers, greatest_by, latest_contract, is_clocked, add_fichaje, asks_for,
  is_of, is_closed,
}
use backend_ssas_rrhh.Asistencia.Fichar.{
  GpsInput, clock_in, clock_out, is_open, with_salida, value_error,
}
use backend_ssas_rrhh.Asistencia.Correcciones.{
  CorrectionInput, target_row, has_extra, row_id, request_correction,
}
use backend_ssas_rrhh.Asistencia.Decisiones.{
  BossDecision, corrected_row, correct_row, row_or_new, with_times, resolved, check_correction,
  decide_correction,
}
use backend_ssas_rrhh.Asistencia.Tablas.{In, greatest_by-In, where_rows-In}

-- The tables that clocking leaves alone.
pub record SameAsks (db db' : AsistenciaDb) : Type 0 where
  pub personal : db'.personal ≡ db.personal
  pub periodos : db'.periodos ≡ db.periodos
  pub correcciones : db'.correcciones ≡ db.correcciones
  pub autorizaciones : db'.autorizaciones ≡ db.autorizaciones

pub record Entered (r : Fichaje) (db db' : AsistenciaDb) : Type 0 where
  pub rows : db'.asistencias ≡ add_row r db.asistencias
  pub fresh : any (λ (s : Fichaje). s.id == r.id) db.asistencias ≡ false
  pub first : any (is_clocked r.empresa_id r.empleado_id r.fecha) db.asistencias ≡ false
  pub others : SameAsks db db'

pub clock_in-Entered :
    (wall : ℕ → ℕ) (user : User) (now new_id : ℕ) (gps : GpsInput) (r : Fichaje)
    (db db' : AsistenciaDb)
    → clock_in wall user now new_id gps db ≡ ok (r, db')
    → Entered r db db'
unfolding clock_in
clock_in-Entered wall user now new_id gps r db db' returned = ground arith

pub record Left (row : Fichaje) (f : Fichaje → Fichaje) (db db' : AsistenciaDb) : Type 0 where
  pub stands : In row db.asistencias
  pub opened : is_some row.hora_salida ≡ false
  pub rows : db'.asistencias ≡ update_key fichaje_key row.id f db.asistencias
  pub others : SameAsks db db'

pub clock_out-Left :
    (user : User) (now : ℕ) (gps : GpsInput) (r : Fichaje) (db db' : AsistenciaDb)
    → clock_out user now gps db ≡ ok (r, db')
    → (row : Fichaje) × (worked : ℕ) × (overtime : ℕ) × Left row
        (with_salida now gps worked overtime)
        db
        db'
unfolding clock_out
clock_out-Left user now gps r db db' returned =
    elim (Outcome-cases (own_employee user db.personal)) [
      | inr (e, failed) ↦ absurd (ground arith)
      | inl ((company, worker), own) ↦
          elim (Option-cases (
            greatest_by (λ (r : Fichaje). r.hora_entrada)
              (where_rows (is_open company worker.id now) db.asistencias))) [
                | inl missing ↦ absurd (ground arith)
                | inr (row, newest) ↦
                    elim (Outcome-cases (latest_contract company worker.id row.fecha db)) [
                      | inr (e, failed) ↦ absurd (ground arith)
                      | inl (c, covered) ↦
                          elim (Outcome-cases (
                            worked_hours row.hora_entrada now c.minutos_descanso c.horas_jornada)) [
                              | inr (e, failed) ↦ absurd (ground arith)
                              | inl ((worked, overtime), hours) ↦
                                  let there =
                                    greatest_by-In (λ (r : Fichaje). r.hora_entrada)
                                      (where_rows (is_open company worker.id now) db.asistencias)
                                      row newest in
                                  let stands =
                                    where_rows-In (is_open company worker.id now) db.asistencias row
                                      there in
                                  let passes = stands.1 in
                                  (
                                    row,
                                    worked,
                                    overtime,
                                    record {
                                      stands = stands.0;
                                      opened = ground arith;
                                      rows = ground arith;
                                      others = ground arith;
                                    },
                                  )
                            ]
                    ]
              ]
    ]

-- A correction that waits, of an attendance without overtime.
pub record Asked (c : Correccion) (db db' : AsistenciaDb) : Type 0 where
  pub asks : db'.correcciones ≡ add_row c db.correcciones
  pub apart : (i : ℕ) → asks_for i c ≡ true → any (is_of i) db.autorizaciones ≡ false
  pub personal : db'.personal ≡ db.personal
  pub periodos : db'.periodos ≡ db.periodos
  pub asistencias : db'.asistencias ≡ db.asistencias
  pub autorizaciones : db'.autorizaciones ≡ db.autorizaciones

request_correction-asks :
    (wall : ℕ → ℕ) (cal : Calendario) (user : User) (now new_id : ℕ) (x : CorrectionInput)
    (c : Correccion) (db db' : AsistenciaDb)
    → request_correction wall cal user now new_id x db ≡ ok (c, db')
    → (row : Option Fichaje) × (c.asistencia_id ≡ row_id row)
      × (has_extra row db ≡ false)
      × (db' ≡ record db { correcciones = add_row c db.correcciones })
unfolding request_correction
request_correction-asks wall cal user now new_id x c db db' returned =
    elim (Outcome-cases (own_employee user db.personal)) [
      | inr (e, failed) ↦ absurd (ground arith)
      | inl ((company, worker), own) ↦ elim (Outcome-cases (target_row company worker.id x db)) [
        | inr (e, failed) ↦ absurd (ground arith)
        | inl (row, there) ↦ (row, ground arith, ground arith, ground arith)
      ]
    ]

asks_for-row :
    (row : Option Fichaje) (i : ℕ) (c : Correccion) (db : AsistenciaDb)
    → c.asistencia_id ≡ row_id row
    → has_extra row db ≡ false
    → asks_for i c ≡ true
    → any (is_of i) db.autorizaciones ≡ false
asks_for-row none i c db names bare asks = ground arith
asks_for-row (some r) i c db names bare asks =
    let same : r.id ≡ i = ground arith in rw (← same) bare

pub request_correction-Asked :
    (wall : ℕ → ℕ) (cal : Calendario) (user : User) (now new_id : ℕ) (x : CorrectionInput)
    (c : Correccion) (db db' : AsistenciaDb)
    → request_correction wall cal user now new_id x db ≡ ok (c, db')
    → Asked c db db'
request_correction-Asked wall cal user now new_id x c db db' returned =
    let (row, names, bare, after) =
      request_correction-asks wall cal user now new_id x c db db' returned in
    record {
      asks = ap (λ (d : AsistenciaDb). d.correcciones) after;
      apart = λ i asks. asks_for-row row i c db names bare asks;
      personal = ap (λ (d : AsistenciaDb). d.personal) after;
      periodos = ap (λ (d : AsistenciaDb). d.periodos) after;
      asistencias = ap (λ (d : AsistenciaDb). d.asistencias) after;
      autorizaciones = ap (λ (d : AsistenciaDb). d.autorizaciones) after;
    }
