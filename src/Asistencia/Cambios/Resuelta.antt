-- ===== src/Asistencia/Cambios/Resuelta.antt =====
-- What a decision on a correction has changed.
use backend_ssas_rrhh.Base.{
  ℕ, ◌≡◌, refl, inl, inr, false, Option, none, some, ok, arith, Bool-cases, Outcome-cases,
}
use backend_ssas_rrhh.Reclutamiento.Lookup.{update_key}
use backend_ssas_rrhh.Personal.Rows.{User, Calendario, is_pendiente_solicitud}
use backend_ssas_rrhh.Asistencia.Rows.{
  Fichaje, Correccion, AsistenciaDb, fichaje_key, correccion_key,
}
use backend_ssas_rrhh.Asistencia.Horas.{minutes_late, worked_hours}
use backend_ssas_rrhh.Asistencia.Lookup.{latest_contract}
use backend_ssas_rrhh.Asistencia.Cambios.{SameAsks}
use backend_ssas_rrhh.Asistencia.Decisiones.{
  BossDecision, corrected_row, correct_row, row_or_new, with_times, resolved, check_correction,
  decide_correction,
}
use backend_ssas_rrhh.Asistencia.Cambios.Decidida.{
  RowChange, Waits, corrected_row-Names, check_correction-Waits, kept, changed, added,
}

row_or_new-RowChange :
    (new_id company : ℕ) (request : Correccion) (row : Option Fichaje) (target : Fichaje)
    (db mid : AsistenciaDb) (worked overtime late : ℕ)
    → request.empresa_id ≡ company
    → corrected_row company request db ≡ ok row
    → row_or_new new_id company request row db ≡ ok (target, mid)
    → RowChange company request db.asistencias
        (update_key fichaje_key target.id (with_times request worked overtime late) mid.asistencias)
unfolding row_or_new
row_or_new-RowChange new_id company request (some r) target db mid worked overtime late own names
      made =
    let n = corrected_row-Names company request r db names in
    let same : r ≡ target = ground arith in
    let rows : mid.asistencias ≡ db.asistencias = ground arith in
    rw (← same, rows)
      (changed r worked overtime late n.named n.found n.empresa n.empleado n.fecha refl)
row_or_new-RowChange new_id company request none target db mid worked overtime late own names made =
    added target worked overtime late (ground arith) (ground arith) (ground arith) (ground arith)
      (ground arith) (ground arith)

row_or_new-SameAsks :
    (new_id company : ℕ) (request : Correccion) (row : Option Fichaje) (target : Fichaje)
    (db mid : AsistenciaDb)
    → row_or_new new_id company request row db ≡ ok (target, mid)
    → SameAsks db mid
unfolding row_or_new
row_or_new-SameAsks new_id company request (some r) target db mid made = ground arith
row_or_new-SameAsks new_id company request none target db mid made = ground arith

-- What a decision on a correction does.
pub record Decided (cal : Calendario) (db db' : AsistenciaDb) : Type 0 where
  pub company : ℕ
  pub request : Correccion
  pub waiting : Waits cal company request db
  pub settled : Correccion → Correccion
  pub closed : (c : Correccion) → is_pendiente_solicitud (settled c).estado ≡ false
  pub asks : db'.correcciones ≡ update_key correccion_key request.id settled db.correcciones
  pub rows : RowChange company request db.asistencias db'.asistencias
  pub personal : db'.personal ≡ db.personal
  pub periodos : db'.periodos ≡ db.periodos
  pub autorizaciones : db'.autorizaciones ≡ db.autorizaciones

correct_row-RowChange :
    (wall : ℕ → ℕ) (new_id company : ℕ) (request : Correccion) (row : Option Fichaje) (id : ℕ)
    (db mid : AsistenciaDb)
    → request.empresa_id ≡ company
    → corrected_row company request db ≡ ok row
    → correct_row wall new_id company request row db ≡ ok (id, mid)
    → RowChange company request db.asistencias mid.asistencias × SameAsks db mid
unfolding correct_row
correct_row-RowChange wall new_id company request row id db mid own names made =
    elim (Outcome-cases (latest_contract company request.empleado_id request.fecha db)) [
      | inr (e, failed) ↦ absurd (ground arith)
      | inl (c, covered) ↦
          elim (Outcome-cases (
            worked_hours request.nueva_entrada request.nueva_salida c.minutos_descanso
              c.horas_jornada)) [
                | inr (e, failed) ↦ absurd (ground arith)
                | inl ((worked, overtime), hours) ↦
                    elim (Outcome-cases (row_or_new new_id company request row db)) [
                      | inr (e, failed) ↦ absurd (ground arith)
                      | inl ((target, db'), there) ↦
                          let late =
                            minutes_late (wall request.nueva_entrada) c.hora_entrada_programada in
                          let change =
                            row_or_new-RowChange new_id company request row target db db' worked
                              overtime late own names there in
                          let rows : mid.asistencias
                              ≡ update_key fichaje_key target.id
                                  (with_times request worked overtime late) db'.asistencias =
                            ground arith in
                          let same =
                            row_or_new-SameAsks new_id company request row target db db' there in
                          (rw rows change, ground arith)
                    ]
              ]
    ]

pub decide_correction-Decided :
    (wall : ℕ → ℕ) (cal : Calendario) (user : User) (now new_id id : ℕ) (x : BossDecision)
    (c : Correccion) (db db' : AsistenciaDb)
    → decide_correction wall cal user now new_id id x db ≡ ok (c, db')
    → Decided cal db db'
unfolding decide_correction
decide_correction-Decided wall cal user now new_id id x c db db' returned =
    elim (Outcome-cases (check_correction wall cal user now id db)) [
      | inr (e, failed) ↦ absurd (ground arith)
      | inl ((company, request, row), passed) ↦
          let (waiting, names) =
            check_correction-Waits wall cal user now id company request row db passed in
          elim (Bool-cases x.aprobar) [
            | inr refused ↦ record {
              company = company;
              request = request;
              waiting = waiting;
              settled = resolved user now x request.asistencia_id;
              closed = λ c. ground arith;
              asks = ground arith;
              rows = kept (ground arith);
              personal = ground arith;
              periodos = ground arith;
              autorizaciones = ground arith;
            }
            | inl approved ↦ elim (Outcome-cases (correct_row wall new_id company request row db)) [
              | inr (e, failed) ↦ absurd (ground arith)
              | inl ((i, mid), made) ↦
                  let (change, same) =
                    correct_row-RowChange wall new_id company request row i db mid waiting.empresa
                      names made in
                  let rows : db'.asistencias ≡ mid.asistencias = ground arith in
                  record {
                    company = company;
                    request = request;
                    waiting = waiting;
                    settled = resolved user now x (some i);
                    closed = λ c. ground arith;
                    asks = ground arith;
                    rows = rw rows change;
                    personal = ground arith;
                    periodos = ground arith;
                    autorizaciones = ground arith;
                  }
            ]
          ]
    ]
