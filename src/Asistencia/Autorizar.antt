-- ===== src/Asistencia/Autorizar.antt =====
-- The two decisions by which overtime comes to be paid.
use backend_ssas_rrhh.Base.{
  ℕ, ◌≡◌, refl, ◌∙◌, true, false, none, some, String, ◌==◌, same_key, find_first, ok, arith,
}
use backend_ssas_rrhh.Reclutamiento.Lookup.{update_key}
use backend_ssas_rrhh.Reclutamiento.Keys.{find_first-update_key, or_raise-found}
use backend_ssas_rrhh.Personal.Rows.{http, User, Calendario, user_tenant}
use backend_ssas_rrhh.Asistencia.Rows.{
  Fichaje, Autorizacion, EstadoExtra, AsistenciaDb, autorizacion_key,
}
use backend_ssas_rrhh.Asistencia.Horas.{date_of}
use backend_ssas_rrhh.Asistencia.Lookup.{editable_period, attendance, current_boss}
use backend_ssas_rrhh.Asistencia.Decisiones.{BossDecision}
use backend_ssas_rrhh.Asistencia.Extras.{
  with_jefe, overtime_request, with_request, decide_overtime_boss,
}
use backend_ssas_rrhh.Asistencia.Rrhh.{
  HrDecision, with_rrhh, is_own, check_overtime, authorized_pay, decide_overtime_hr,
}

-- A request that is found again after a change that keeps its key and its company.
overtime_request-changed :
    (f : Autorizacion → Autorizacion) (company id : ℕ) (a : Autorizacion) (db : AsistenciaDb)
    → ((b : Autorizacion) → (f b).id ≡ b.id)
    → ((b : Autorizacion) → (f b).empresa_id ≡ b.empresa_id)
    → overtime_request company id db ≡ ok a
    → overtime_request company id
        (record db { autorizaciones = update_key autorizacion_key a.id f db.autorizaciones })
      ≡ ok (f a)
overtime_request-changed f company id a db same_id same_company there =
    let (found, key, passes) =
      or_raise-found autorizacion_key id (λ (b : Autorizacion). b.empresa_id == company)
        db.autorizaciones (http 404 "Solicitud no encontrada") {x = a} there in
    let again = find_first-update_key autorizacion_key id f same_id db.autorizaciones in
    let kept = same_company a in
    let now_found : find_first (λ b. autorizacion_key b == id)
          (update_key autorizacion_key id f db.autorizaciones)
        ≡ some (f a) =
      again ∙ rw found refl in
    rw key (rw now_found (ground arith))

module _ (wall : ℕ → ℕ) (cal : Calendario) (company id : ℕ) (a : Autorizacion) (row : Fichaje)
    (db : AsistenciaDb) where
  decide_overtime_boss-ok :
      (boss : User) (now : ℕ) (x : BossDecision)
      → overtime_request company id db ≡ ok a
      → a.estado ≡ EstadoExtra.jefe_pendiente
      → attendance company a.asistencia_id db ≡ ok row
      → editable_period cal company row.fecha db ≡ ok tt
      → user_tenant boss none ≡ ok company
      → current_boss boss company a.empleado_id (date_of (wall now)) db ≡ ok tt
      → decide_overtime_boss wall cal boss now id x db
        ≡ ok (
          with_jefe boss now x a,
          record db {
            autorizaciones =
                update_key autorizacion_key a.id (with_jefe boss now x) db.autorizaciones;
          },
        )
  unfolding decide_overtime_boss
  decide_overtime_boss-ok boss now x there waits stands editable of_boss leads = ground arith

  check_overtime-ok :
      (hr : User)
      → overtime_request company id db ≡ ok a
      → a.estado ≡ EstadoExtra.rrhh_pendiente
      → same_key a.jefe_id (some hr.id) ≡ false
      → is_own company hr.id a.empleado_id db.personal ≡ false
      → attendance company a.asistencia_id db ≡ ok row
      → editable_period cal company row.fecha db ≡ ok tt
      → user_tenant hr none ≡ ok company
      → check_overtime cal hr id db ≡ ok (company, a, row)
  unfolding check_overtime
  check_overtime-ok hr there waits two other stands editable of_hr = ground arith

  decide_overtime_hr-ok :
      (hr : User) (later amount : ℕ) (text : String) (y : HrDecision)
      → check_overtime cal hr id db ≡ ok (company, a, row)
      → y.aprobar ≡ true
      → y.calculo_automatico ≡ false
      → y.monto_autorizado ≡ some amount
      → y.referencia_calculo ≡ some text
      → decide_overtime_hr wall cal hr later id y db
        ≡ with_request (with_rrhh hr later y EstadoExtra.autorizado (some amount) (some text)) a db
  unfolding decide_overtime_hr authorized_pay
  decide_overtime_hr-ok hr later amount text y passed agrees by_hand has_amount has_text =
      ground arith

module _ (wall : ℕ → ℕ) (cal : Calendario) (company id : ℕ) (a : Autorizacion) (row : Fichaje)
    (db : AsistenciaDb) where
  -- A request for overtime that waits for the head, of an attendance in an open period, comes to be
  -- authorised with a given amount and reference: the head of the worker, who is of the company, confirms
  -- it, at any time; then any other account of the company that is not the worker's authorises it, at any
  -- time. Both requests return, and the one for overtime is found authorised after them.
  pub decide_overtime-authorizes :
      (boss hr : User) (now later amount : ℕ) (text : String) (x : BossDecision) (y : HrDecision)
      → overtime_request company id db ≡ ok a
      → a.estado ≡ EstadoExtra.jefe_pendiente
      → attendance company a.asistencia_id db ≡ ok row
      → editable_period cal company row.fecha db ≡ ok tt
      → user_tenant boss none ≡ ok company
      → current_boss boss company a.empleado_id (date_of (wall now)) db ≡ ok tt
      → user_tenant hr none ≡ ok company
      → (boss.id == hr.id) ≡ false
      → is_own company hr.id a.empleado_id db.personal ≡ false
      → x.aprobar ≡ true
      → y.aprobar ≡ true
      → y.calculo_automatico ≡ false
      → y.monto_autorizado ≡ some amount
      → y.referencia_calculo ≡ some text
      → (mid db' : AsistenciaDb) × (confirmed authorized : Autorizacion) × (decide_overtime_boss
            wall cal boss now id x db
          ≡ ok (confirmed, mid))
        × (decide_overtime_hr wall cal hr later id y mid ≡ ok (authorized, db'))
        × (overtime_request company id db' ≡ ok authorized)
        × (authorized.estado ≡ EstadoExtra.autorizado)
        × (authorized.monto_autorizado ≡ some amount)
        × (authorized.referencia_calculo ≡ some text)
  decide_overtime-authorizes boss hr now later amount text x y there waits stands editable of_boss
        leads of_hr two other approves agrees by_hand has_amount has_text =
      let confirmed = with_jefe boss now x a in
      let authorized =
        with_rrhh hr later y EstadoExtra.autorizado (some amount) (some text) confirmed in
      let mid = record db {
        autorizaciones = update_key autorizacion_key a.id (with_jefe boss now x) db.autorizaciones;
      } in
      let db' = record mid {
        autorizaciones =
            update_key autorizacion_key confirmed.id
              (with_rrhh hr later y EstadoExtra.autorizado (some amount) (some text))
              mid.autorizaciones;
      } in
      let found =
        overtime_request-changed (with_jefe boss now x) company id a db (λ b. refl) (λ b. refl)
          there in
      let found_again =
        overtime_request-changed
          (with_rrhh hr later y EstadoExtra.autorizado (some amount) (some text)) company id
          confirmed mid (λ b. refl) (λ b. refl) found in
      (
        mid,
        db',
        confirmed,
        authorized,
        decide_overtime_boss-ok wall cal company id a row db boss now x there waits stands editable
            of_boss leads,
        decide_overtime_hr-ok wall cal company id confirmed row mid hr later amount text y
            (check_overtime-ok wall cal company id confirmed row mid hr found (rw approves refl) two
              other stands editable of_hr)
            agrees by_hand has_amount has_text,
        found_again,
        refl,
        refl,
        refl,
      )
