-- ===== src/Asistencia/Pago.antt =====
-- The overtime that a payroll finds: src/ssas/personal/infrastructure/http/payroll_router.py reads the
-- tables that the requests about attendance write.
use backend_ssas_rrhh.Base.{
  ℕ, ◌*◌, ◌/◌, ◌≤◌, ◌≡◌, ◌≢◌, refl, sym, ◌∙◌, inl, inr, Bool, true, ◌&&◌, none, some, List, [], ◌∷◌,
  map, String, ◌==◌, is_some, find_first, err, arith, Bool-cases, Option-cases,
}
use mathlib.Core.Path.{subst}
use backend_ssas_rrhh.Nomina.Rows.{Asistencia, AutorizacionHorasExtra, NominaDb, NominaError}
use backend_ssas_rrhh.Nomina.Review.{authorization_of, authorized_amount, entry_amount}
use backend_ssas_rrhh.Personal.Rows.{Calendario}
use backend_ssas_rrhh.Asistencia.Rows.{
  Fichaje, Autorizacion, EstadoExtra, AsistenciaDb, fichaje_key,
}
use backend_ssas_rrhh.Asistencia.Requests.{Run}
use backend_ssas_rrhh.Asistencia.Tablas.{In, find_first-Distinct, All-In}
use backend_ssas_rrhh.Asistencia.Cubiertas.{Backed, Covered}
use backend_ssas_rrhh.Asistencia.Cubiertas.Runs.{Run-Covered}
use backend_ssas_rrhh.Asistencia.Manos.{two_hands, TwoHands, Run-TwoHands}

-- A row as the payroll reads it: hours in ten-thousandths, instants in seconds, the state as its text.
abbrev pub payroll_row : Fichaje → Asistencia
payroll_row r = record {
  id = r.id;
  empresa_id = r.empresa_id;
  empleado_id = r.empleado_id;
  fecha = r.fecha;
  hora_salida = elim r.hora_salida [ none ↦ none | some t ↦ some (t / 1000000) ];
  horas_extra = r.horas_extra * 100;
}

abbrev pub estado_text : EstadoExtra → String
estado_text EstadoExtra.jefe_pendiente = "JEFE_PENDIENTE"
estado_text EstadoExtra.rrhh_pendiente = "RRHH_PENDIENTE"
estado_text EstadoExtra.autorizado = "AUTORIZADO"
estado_text EstadoExtra.rechazado = "RECHAZADO"

abbrev pub payroll_extra : Autorizacion → AutorizacionHorasExtra
payroll_extra a = record {
  empresa_id = a.empresa_id;
  asistencia_id = a.asistencia_id;
  horas_solicitadas = a.horas_solicitadas * 100;
  estado = estado_text a.estado;
  monto_autorizado = a.monto_autorizado;
}

-- The tables of the payroll with those of the attendance.
abbrev pub payroll_view : AsistenciaDb → NominaDb → NominaDb
payroll_view db n = record n {
  asistencias = map payroll_row db.asistencias;
  autorizaciones = map payroll_extra db.autorizaciones;
}

find_first-map :
    (q : AutorizacionHorasExtra → Bool) (requests : List Autorizacion) (y : AutorizacionHorasExtra)
    → find_first q (map payroll_extra requests) ≡ some y
    → (a : Autorizacion) × In a requests × (y ≡ payroll_extra a) × (q (payroll_extra a) ≡ true)
find_first-map q [] y found = cc
find_first-map q (a ∷ rest) y found = elim (Bool-cases (q (payroll_extra a))) [
  | inl here ↦ (a, inl refl, ground arith, here)
  | inr other ↦
      let (b, stands, same, passes) = find_first-map q rest y (ground arith) in
      (b, inr stands, same, passes)
]

-- A request with its amount, and hours that were clocked.
amount-valid :
    (r : Fichaje) (a : Autorizacion) (e : EstadoExtra)
    → a.horas_solicitadas ≤ r.horas_extra
    → a.estado ≡ e
    → (e ≡ EstadoExtra.autorizado → is_some a.monto_autorizado ≡ true)
    → authorized_amount (payroll_row r) (payroll_extra a) ≢ err NominaError.autorizacion_invalida
unfolding authorized_amount
amount-valid r a EstadoExtra.jefe_pendiente within state amount bad =
    let found = rw state at bad in ground arith
amount-valid r a EstadoExtra.rrhh_pendiente within state amount bad =
    let found = rw state at bad in ground arith
amount-valid r a EstadoExtra.autorizado within state amount bad =
    let has = amount refl in
    let found = rw state at bad in
    elim (Option-cases a.monto_autorizado) [
      | inl nothing ↦ ground arith
      | inr (m, there) ↦ ground arith
    ]
amount-valid r a EstadoExtra.rechazado within state amount bad =
    let found = rw state at bad in ground arith

two_hands-amount :
    (db : AsistenciaDb) (a : Autorizacion)
    → two_hands db.personal a ≡ true
    → a.estado ≡ EstadoExtra.autorizado
    → is_some a.monto_autorizado ≡ true
two_hands-amount db a hands state = let found = rw state at hands in ground arith

-- The error is that of the authorisation that is found.
entry_amount-authorized :
    (company : ℕ) (entry : Asistencia) (n : NominaDb) (y : AutorizacionHorasExtra)
    → authorization_of company entry.id n ≡ some y
    → entry_amount company n entry ≡ err NominaError.autorizacion_invalida
    → authorized_amount entry y ≡ err NominaError.autorizacion_invalida
unfolding entry_amount
entry_amount-authorized company entry n y there bad = elim (Bool-cases (entry.horas_extra == 0)) [
  | inl nothing ↦ ground arith
  | inr some_hours ↦ ground arith
]

entry_amount-valid :
    (company : ℕ) (r : Fichaje) (db : AsistenciaDb) (n : NominaDb)
    → Covered db
    → TwoHands db
    → In r db.asistencias
    → entry_amount company (payroll_view db n) (payroll_row r)
      ≢ err NominaError.autorizacion_invalida
unfolding entry_amount
entry_amount-valid company r db n covered hands stands bad =
    elim (Option-cases (authorization_of company r.id (payroll_view db n))) [
      | inl nothing ↦ ground arith
      | inr (y, there) ↦
          let (a, listed, same, passes) =
            find_first-map
              (λ (x : AutorizacionHorasExtra). x.empresa_id == company && x.asistencia_id == r.id)
              db.autorizaciones y there in
          let b =
            All-In (Backed db.asistencias db.correcciones) db.autorizaciones a covered.backed
              listed in
          let key : a.asistencia_id ≡ r.id = ground arith in
          let first = find_first-Distinct fichaje_key db.asistencias r covered.distinct stands in
          let there_too : find_first (λ s. fichaje_key s == r.id) db.asistencias ≡ some b.row =
            rw (← key) b.found in
          let one : some r ≡ some b.row = sym first ∙ there_too in
          let within : a.horas_solicitadas ≤ r.horas_extra =
            let same_row : r ≡ b.row = ground arith in rw same_row b.within in
          amount-valid r a a.estado within refl
            (two_hands-amount db a
              (All-In (λ x. two_hands db.personal x ≡ true) db.autorizaciones a hands listed))
            (subst
              (λ z. authorized_amount (payroll_row r) z ≡ err NominaError.autorizacion_invalida)
              same
              (entry_amount-authorized company (payroll_row r) (payroll_view db n) y there bad))
    ]

-- Whatever requests about attendance are made, in any order, where every request for overtime has its
-- attendance and its two hands at the start, no attendance that the payroll then finds has an
-- authorisation that it refuses as not valid: one without an amount, or with more hours than were clocked.
pub Run-entry_amount :
    (wall : ℕ → ℕ) (cal : Calendario) (company : ℕ) (db db' : AsistenciaDb) (n : NominaDb)
    (r : Fichaje)
    → Covered db
    → TwoHands db
    → Run wall cal db db'
    → In r db'.asistencias
    → entry_amount company (payroll_view db' n) (payroll_row r)
      ≢ err NominaError.autorizacion_invalida
Run-entry_amount wall cal company db db' n r covered hands run =
    entry_amount-valid company r db' n (Run-Covered wall cal db db' covered run)
      (Run-TwoHands wall cal db db' hands run)
