-- ===== src/Asistencia/Cambios/Decidida.antt =====
-- What a decision on a correction has checked.
use backend_ssas_rrhh.Base.{
  ℕ, ◌≡◌, inl, inr, true, false, Option, none, some, List, ◌==◌, any, find_first, add_row, ok,
  or_raise, arith, Option-cases, Outcome-cases,
}
use mathlib.Core.Path.{subst}
use backend_ssas_rrhh.Reclutamiento.Lookup.{find_key, update_key}
use backend_ssas_rrhh.Reclutamiento.Keys.{or_raise-found}
use backend_ssas_rrhh.Personal.Rows.{http, User, Calendario, is_pendiente_solicitud, user_tenant}
use backend_ssas_rrhh.Asistencia.Rows.{
  Fichaje, Correccion, AsistenciaDb, fichaje_key, correccion_key,
}
use backend_ssas_rrhh.Asistencia.Lookup.{attendance, is_clocked, is_closed}
use backend_ssas_rrhh.Asistencia.Decisiones.{corrected_row, with_times, check_correction}

-- What a decision on `request` does to the attendances: nothing, or it changes the one that the request
-- names, or adds one.
pub data RowChange (company : ℕ) (request : Correccion) (rows rows' : List Fichaje) : Type 0 where
  kept : rows' ≡ rows → RowChange company request rows rows'
  changed :
      (row : Fichaje) (worked overtime late : ℕ)
      → request.asistencia_id ≡ some row.id
      → find_first (λ r. fichaje_key r == row.id) rows ≡ some row
      → row.empresa_id ≡ company
      → row.empleado_id ≡ request.empleado_id
      → row.fecha ≡ request.fecha
      → rows' ≡ update_key fichaje_key row.id (with_times request worked overtime late) rows
      → RowChange company request rows rows'
  added :
      (n : Fichaje) (worked overtime late : ℕ)
      → n.empresa_id ≡ company
      → n.empleado_id ≡ request.empleado_id
      → n.fecha ≡ request.fecha
      → any (λ (s : Fichaje). s.id == n.id) rows ≡ false
      → any (is_clocked company request.empleado_id request.fecha) rows ≡ false
      → rows'
        ≡ update_key fichaje_key n.id (with_times request worked overtime late) (add_row n rows)
      → RowChange company request rows rows'

-- The request that a decision finds.
pub record Waits (cal : Calendario) (company : ℕ) (request : Correccion) (db : AsistenciaDb)
    : Type 0 where
  pub found : find_first (λ c. correccion_key c == request.id) db.correcciones ≡ some request
  pub waits : is_pendiente_solicitud request.estado ≡ true
  pub editable : is_closed cal company request.fecha db ≡ false
  pub empresa : request.empresa_id ≡ company

-- The attendance that the request names.
pub record Names (company : ℕ) (request : Correccion) (row : Fichaje) (db : AsistenciaDb)
    : Type 0 where
  pub named : request.asistencia_id ≡ some row.id
  pub found : find_first (λ r. fichaje_key r == row.id) db.asistencias ≡ some row
  pub empresa : row.empresa_id ≡ company
  pub empleado : row.empleado_id ≡ request.empleado_id
  pub fecha : row.fecha ≡ request.fecha

pub corrected_row-Names :
    (company : ℕ) (request : Correccion) (row : Fichaje) (db : AsistenciaDb)
    → corrected_row company request db ≡ ok (some row)
    → Names company request row db
unfolding corrected_row
corrected_row-Names company request row db got = elim (Option-cases request.asistencia_id) [
  | inl nothing ↦ absurd (ground arith)
  | inr (id, named) ↦ elim (Outcome-cases (attendance company id db)) [
    | inr (e, failed) ↦ absurd (ground arith)
    | inl (r, there) ↦
        let (found, key, passes) =
          or_raise-found fichaje_key id (λ (s : Fichaje). s.empresa_id == company) db.asistencias
            (http 404 "Asistencia no encontrada") {x = r} there in
        let names : Names company request r db = record {
          named = ground arith;
          found = ground arith;
          empresa = ground arith;
          empleado = ground arith;
          fecha = ground arith;
        } in
        subst (λ s. Names company request s db) (ground arith) names
  ]
]

-- The checks that a decision passed.
pub check_correction-Waits :
    (wall : ℕ → ℕ) (cal : Calendario) (user : User) (now id company : ℕ) (request : Correccion)
    (row : Option Fichaje) (db : AsistenciaDb)
    → check_correction wall cal user now id db ≡ ok (company, request, row)
    → Waits cal company request db × (corrected_row company request db ≡ ok row)
unfolding check_correction
check_correction-Waits wall cal user now id company request row db passed =
    elim (Outcome-cases (user_tenant user none)) [
      | inr (e, failed) ↦ absurd (ground arith)
      | inl (own, tenant) ↦
          elim (Outcome-cases (
            or_raise
              (find_key correccion_key id (λ (c : Correccion). c.empresa_id == own) db.correcciones)
              (http 404 "Solicitud no encontrada"))) [
                | inr (e, failed) ↦ absurd (ground arith)
                | inl (c, there) ↦
                    let (found, key, passes) =
                      or_raise-found correccion_key id (λ (c : Correccion). c.empresa_id == own)
                        db.correcciones (http 404 "Solicitud no encontrada") {x = c} there in
                    elim (Outcome-cases (corrected_row own c db)) [
                      | inr (e, failed) ↦ absurd (ground arith)
                      | inl (r, names) ↦
                          let w : Waits cal own c db = record {
                            found = ground arith;
                            waits = ground arith;
                            editable = ground arith;
                            empresa = ground arith;
                          } in
                          let at_company : own ≡ company = ground arith in
                          let at_request : c ≡ request = ground arith in
                          let at_row : r ≡ row = ground arith in
                          rw (← at_company, ← at_request, ← at_row) (w, names)
                    ]
              ]
    ]
