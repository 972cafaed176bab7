-- ===== src/Asistencia/Manos.antt =====
-- Overtime is authorised by two people, neither of whom is the worker.
use backend_ssas_rrhh.Base.{
  ℕ, ◌≡◌, refl, inl, inr, Bool, true, false, not, ◌&&◌, Option, none, some, ◌==◌, same_key, is_some,
  All, arith,
}
use backend_ssas_rrhh.Personal.Rows.{User, Calendario, PersonalDb}
use backend_ssas_rrhh.Asistencia.Rows.{Autorizacion, EstadoExtra, AsistenciaDb, autorizacion_key}
use backend_ssas_rrhh.Asistencia.Decisiones.{BossDecision}
use backend_ssas_rrhh.Asistencia.Extras.{with_jefe}
use backend_ssas_rrhh.Asistencia.Rrhh.{HrDecision, with_rrhh, is_own}
use backend_ssas_rrhh.Asistencia.Requests.{
  Step, Run, asked, corrected, claimed, confirmed, authorized, entered, left, adjusted, stay,
  then_step,
}
use backend_ssas_rrhh.Asistencia.Tablas.{find_first-In, All-In, All-add_row, All-changed}
use backend_ssas_rrhh.Asistencia.Cambios.{
  clock_in-Entered, clock_out-Left, request_correction-Asked,
}
use backend_ssas_rrhh.Asistencia.Cambios.Resuelta.{decide_correction-Decided}
use backend_ssas_rrhh.Asistencia.Cambios.Extra.{
  Reviewed, Closed, request_overtime-Claimed, decide_overtime_boss-Reviewed,
  decide_overtime_hr-Closed,
}

-- The account confirmed the request, and is not the worker's.
abbrev pub by_other : PersonalDb → ℕ → ℕ → Option ℕ → Bool
by_other db company empleado_id none = false
by_other db company empleado_id (some user_id) = not (is_own company user_id empleado_id db)

-- A request that waits for the final decision was confirmed by another person than the worker. An
-- authorised one has an amount, and a third person has authorised it.
abbrev pub two_hands : PersonalDb → Autorizacion → Bool
two_hands db a = elim a.estado [
  | EstadoExtra.jefe_pendiente ↦ true
  | EstadoExtra.rrhh_pendiente ↦ by_other db a.empresa_id a.empleado_id a.jefe_id
  | EstadoExtra.autorizado ↦
      by_other db a.empresa_id a.empleado_id a.jefe_id
      && by_other db a.empresa_id a.empleado_id a.rrhh_id
      && not (same_key a.jefe_id a.rrhh_id)
      && is_some a.monto_autorizado
  | EstadoExtra.rechazado ↦ true
]

abbrev pub TwoHands : AsistenciaDb → Type 0
TwoHands db = All (λ a. two_hands db.personal a ≡ true) db.autorizaciones

with_jefe-two_hands :
    (user : User) (now : ℕ) (x : BossDecision) (a : Autorizacion) (db : PersonalDb)
    → is_own a.empresa_id user.id a.empleado_id db ≡ false
    → two_hands db (with_jefe user now x a) ≡ true
with_jefe-two_hands user now x a db other = ground arith

with_rrhh-two_hands :
    (user : User) (now : ℕ) (x : HrDecision) (db db' : AsistenciaDb) (k : Closed user now x db db')
    → two_hands db.personal k.request ≡ true
    → two_hands db.personal (with_rrhh user now x k.estado k.monto k.referencia k.request) ≡ true
with_rrhh-two_hands user now x db db' k before =
    let waits = k.waits in
    let another = k.another in
    let other = k.not_own in
    elim k.result [
      | inl refused ↦ rw refused refl
      | inr (estado, amount) ↦ rw estado (ground arith)
    ]

TwoHands-same :
    (db db' : AsistenciaDb)
    → db'.personal ≡ db.personal
    → db'.autorizaciones ≡ db.autorizaciones
    → TwoHands db
    → TwoHands db'
TwoHands-same db db' personal requests all = rw (personal, requests) all

-- One request is changed, and the new one passes the test.
Reviewed-TwoHands :
    (request : Autorizacion) (f : Autorizacion → Autorizacion) (db db' : AsistenciaDb)
    → Reviewed request f db db'
    → two_hands db.personal (f request) ≡ true
    → TwoHands db
    → TwoHands db'
Reviewed-TwoHands request f db db' v after all =
    rw (v.others.personal, v.requests)
      (All-changed autorizacion_key request.id f (λ a. two_hands db.personal a ≡ true)
        db.autorizaciones request v.found after all)

Step-TwoHands :
    (wall : ℕ → ℕ) (cal : Calendario) (db db' : AsistenciaDb)
    → TwoHands db
    → Step wall cal db db'
    → TwoHands db'
Step-TwoHands wall cal db db' all (entered user now new_id gps r _ h) =
    let e = clock_in-Entered wall user now new_id gps r db db' h in
    TwoHands-same db db' e.others.personal e.others.autorizaciones all
Step-TwoHands wall cal db db' all (left user now gps r _ h) =
    let (row, worked, overtime, l) = clock_out-Left user now gps r db db' h in
    TwoHands-same db db' l.others.personal l.others.autorizaciones all
Step-TwoHands wall cal db db' all (adjusted _ (asked user now new_id x r _ h)) =
    let k = request_correction-Asked wall cal user now new_id x r db db' h in
    TwoHands-same db db' k.personal k.autorizaciones all
Step-TwoHands wall cal db db' all (adjusted _ (corrected user now new_id id x r _ h)) =
    let d = decide_correction-Decided wall cal user now new_id id x r db db' h in
    TwoHands-same db db' d.personal d.autorizaciones all
Step-TwoHands wall cal db db' all (adjusted _ (claimed user new_id x a _ h)) =
    let k = request_overtime-Claimed cal user new_id x a db db' h in
    let waits = k.waits in
    rw (k.others.personal, k.requests)
      (All-add_row (λ b. two_hands db.personal b ≡ true) a db.autorizaciones all (ground arith))
Step-TwoHands wall cal db db' all (adjusted _ (confirmed user now id x a _ h)) =
    let (request, v, _, other) = decide_overtime_boss-Reviewed wall cal user now id x a db db' h in
    Reviewed-TwoHands request (with_jefe user now x) db db' v
      (with_jefe-two_hands user now x request db.personal other) all
Step-TwoHands wall cal db db' all (adjusted _ (authorized user now id x a _ h)) =
    let k = decide_overtime_hr-Closed wall cal user now id x a db db' h in
    let stands =
      find_first-In (λ b. autorizacion_key b == k.request.id) db.autorizaciones k.request
        k.reviewed.found in
    let before =
      All-In (λ b. two_hands db.personal b ≡ true) db.autorizaciones k.request all stands in
    Reviewed-TwoHands k.request (with_rrhh user now x k.estado k.monto k.referencia) db db'
      k.reviewed (with_rrhh-two_hands user now x db db' k before) all

-- Whatever requests about attendance are made, in any order, every authorised request for overtime has an
-- amount, and was confirmed by one account and authorised by another, neither of which is the worker's in
-- the company, where this held at the start. Of a request that waits for the final decision, the account
-- that confirmed it is not the worker's.
pub Run-TwoHands :
    (wall : ℕ → ℕ) (cal : Calendario) (db db' : AsistenciaDb)
    → TwoHands db
    → Run wall cal db db'
    → TwoHands db'
Run-TwoHands wall cal db _ all (stay _) = all
Run-TwoHands wall cal db db' all (then_step _ mid _ one more) =
    Run-TwoHands wall cal mid db' (Step-TwoHands wall cal db mid all one) more
