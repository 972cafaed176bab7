-- ===== src/Nomina/Review.antt =====
-- What `calculate_period` checks and reads before it computes: contracts, leave, proportional pay,
-- attendance and overtime (src/ssas/personal/infrastructure/http/payroll_router.py).
use backend_ssas_rrhh.Base.{
  ℕ, ◌+◌, Bool, true, false, not, ◌&&◌, ◌||◌, Option, none, some, List, [], ◌∷◌, map, str_eq, ltb,
  leb, ◌==◌, is_some, any, find_first, ◌++◌, where_rows, Outcome, ok, err, ◌>>=◌, ◌>>◌, raise_if,
  or_raise, if◌then◌else◌,
}
use backend_ssas_rrhh.Base.Int.{pos}
use backend_ssas_rrhh.Payroll.Rules.{Date, ordinal, days_in_month, PayrollError}
use backend_ssas_rrhh.Payroll.Proration.{ProrationSuggestion, suggest_calendar_proration, Range}
use backend_ssas_rrhh.Nomina.Rows.{
  NominaError, Contrato, HaberProporcional, SolicitudAusencia, TipoAusencia, Asistencia,
  AutorizacionHorasExtra, NominaDb, PeriodoNomina,
}
use backend_ssas_rrhh.Nomina.Periods.{is_worker}

-- The first day and the last day of the period's month.
abbrev pub month_start : PeriodoNomina → Date
month_start p = record { year = p.gestion; month = p.mes; day = 1 }

abbrev pub month_end : PeriodoNomina → Date
month_end p = record { year = p.gestion; month = p.mes; day = days_in_month p.gestion p.mes }

-- A `PayrollError` of a computation is one of the errors of the period.
unfoldable pub of_payroll : {A : Type 0} → Outcome PayrollError A → Outcome NominaError A
of_payroll (ok a) = ok a
of_payroll (err e) = err (NominaError.calculo e)

-- Two closed ranges of days meet, the second one perhaps without an end.
abbrev pub meets : ℕ → ℕ → ℕ → ℕ → Bool
meets first cutoff from until = leb from cutoff && leb first until

abbrev pub is_current : ℕ → ℕ → Contrato → Bool
is_current first cutoff c =
    leb c.fecha_inicio cutoff && (elim c.fecha_fin [ none ↦ true | some last ↦ leb first last ])

-- The contracts of workers of the company that meet the month.
unfoldable pub contracts_of : ℕ → ℕ → ℕ → NominaDb → List Contrato
contracts_of company first cutoff db =
    where_rows
      (λ (c : Contrato).
        c.empresa_id == company
        && any (is_worker company c.empleado_id) db.empleados
        && is_current first cutoff c)
      db.contratos

abbrev pub of_employee : ℕ → Contrato → Bool
of_employee empleado_id c = c.empleado_id == empleado_id

-- `len({c.empleado_id for c in contracts}) != len(contracts)`
unfoldable pub has_repeated : List Contrato → Bool
has_repeated [] = false
has_repeated (c ∷ cs) = any (of_employee c.empleado_id) cs || has_repeated cs

-- `empleado_id.in_(employee_ids)`
abbrev pub is_listed : List Contrato → ℕ → Bool
is_listed contracts empleado_id = any (of_employee empleado_id) contracts

abbrev pub is_pending_leave : ℕ → ℕ → ℕ → List Contrato → SolicitudAusencia → Bool
is_pending_leave company first cutoff contracts a =
    a.empresa_id == company
    && is_listed contracts a.empleado_id
    && str_eq a.estado "PENDIENTE"
    && meets first cutoff a.fecha_inicio a.fecha_fin

-- The type of the leave is of the company, and not paid.
abbrev pub is_unpaid_type : ℕ → ℕ → TipoAusencia → Bool
is_unpaid_type company tipo_id t = t.id == tipo_id && t.empresa_id == company && not t.es_remunerado

unfoldable pub unpaid_leave_of : ℕ → ℕ → ℕ → List Contrato → NominaDb → List SolicitudAusencia
unpaid_leave_of company first cutoff contracts db =
    where_rows
      (λ (a : SolicitudAusencia).
        a.empresa_id == company
        && any (is_unpaid_type company a.tipo_ausencia_id) db.tipos_ausencia
        && is_listed contracts a.empleado_id
        && str_eq a.estado "APROBADA"
        && meets first cutoff a.fecha_inicio a.fecha_fin)
      db.ausencias

-- `pay_by_employee`: the reviewed pays of the period.
unfoldable pub partial_pay_of : ℕ → ℕ → List Contrato → NominaDb → List HaberProporcional
partial_pay_of company periodo_id contracts db =
    where_rows
      (λ (h : HaberProporcional).
        h.empresa_id == company && h.periodo_id == periodo_id && is_listed contracts h.empleado_id)
      db.haberes

abbrev pub pay_of : ℕ → List HaberProporcional → Option HaberProporcional
pay_of empleado_id pays = find_first (λ (h : HaberProporcional). h.empleado_id == empleado_id) pays

abbrev pub leave_ranges : ℕ → List SolicitudAusencia → List Range
leave_ranges empleado_id leaves =
    map (λ (a : SolicitudAusencia). (a.fecha_inicio, a.fecha_fin))
      (where_rows (λ (a : SolicitudAusencia). a.empleado_id == empleado_id) leaves)

abbrev pub needs_review : ℕ → ℕ → List SolicitudAusencia → Contrato → Bool
needs_review first cutoff leaves c =
    ltb first c.fecha_inicio
    || (elim c.fecha_fin [ none ↦ false | some last ↦ ltb last cutoff ])
    || any (λ (a : SolicitudAusencia). a.empleado_id == c.empleado_id) leaves

-- The pay that the proration suggests, where none was reviewed.
abbrev pub suggested_pay : ℕ → ℕ → ℕ → ℕ → Contrato → ProrationSuggestion → HaberProporcional
suggested_pay new_id company periodo_id user_id c s = record {
  id = new_id;
  empresa_id = company;
  periodo_id = periodo_id;
  empleado_id = c.empleado_id;
  dias_pagados = s.paid_days;
  haber_basico_pagado = s.basic_pay;
  referencia_calculo = "AUTO_DIAS_CALENDARIO";
  registrado_por_id = user_id;
}

-- The reviewed pay may not go beyond the suggestion and the contract.
unfoldable pub check_pay :
    Contrato → ProrationSuggestion → HaberProporcional → Outcome NominaError (Unit {0})
check_pay c s h = do
  raise_if (ltb s.paid_days h.dias_pagados) NominaError.dias_sin_contrato
  raise_if (ltb c.salario_basico h.haber_basico_pagado) NominaError.haber_supera_salario

-- One pass of the loop over the contracts: the pay that it adds to the period, if any.
unfoldable pub review_contract :
    PeriodoNomina
    → (ℕ → ℕ)
    → ℕ
    → List SolicitudAusencia
    → List HaberProporcional
    → Contrato
    → Outcome NominaError (List HaberProporcional)
review_contract p new_id user_id leaves pays c =
    let first = ordinal (month_start p) in
    let cutoff = ordinal (month_end p) in
    if not (needs_review first cutoff leaves c)
    then (if is_some (pay_of c.empleado_id pays)
        then err NominaError.haber_de_mes_completo
        else ok [])
    else do
      s ← of_payroll (
          suggest_calendar_proration (pos c.salario_basico) (month_start p) (month_end p)
            c.fecha_inicio c.fecha_fin (leave_ranges c.empleado_id leaves))
      raise_if (s.paid_days == 0 || s.basic_pay == 0) NominaError.mes_sin_dias_pagables
      elim (pay_of c.empleado_id pays) [
        | some h ↦ check_pay c s h >> ok []
        | none ↦
            let h = suggested_pay (new_id c.empleado_id) p.empresa_id p.id user_id c s in
            check_pay c s h >> ok (h ∷ [])
      ]

-- The loop over the contracts: the pays that it adds.
unfoldable pub review_contracts :
    PeriodoNomina
    → (ℕ → ℕ)
    → ℕ
    → List SolicitudAusencia
    → List HaberProporcional
    → List Contrato
    → Outcome NominaError (List HaberProporcional)
review_contracts p new_id user_id leaves pays [] = ok []
review_contracts p new_id user_id leaves pays (c ∷ cs) = do
  added ← review_contract p new_id user_id leaves pays c
  more ← review_contracts p new_id user_id leaves (pays ++ added) cs
  ok (added ++ more)

abbrev pub in_month : ℕ → ℕ → ℕ → Bool
in_month first cutoff day = leb first day && leb day cutoff

unfoldable pub attendance_of : ℕ → ℕ → ℕ → List Contrato → NominaDb → List Asistencia
attendance_of company first cutoff contracts db =
    where_rows
      (λ (a : Asistencia).
        a.empresa_id == company
        && is_listed contracts a.empleado_id
        && in_month first cutoff a.fecha)
      db.asistencias

-- `overtime_by_attendance.get(entry.id)`
abbrev pub authorization_of : ℕ → ℕ → NominaDb → Option AutorizacionHorasExtra
authorization_of company asistencia_id db =
    find_first
      (λ (x : AutorizacionHorasExtra). x.empresa_id == company && x.asistencia_id == asistencia_id)
      db.autorizaciones

-- What an authorisation pays for a day: nothing if it is rejected.
unfoldable pub authorized_amount : Asistencia → AutorizacionHorasExtra → Outcome NominaError ℕ
authorized_amount entry x =
    if str_eq x.estado "AUTORIZADO"
    then (elim x.monto_autorizado [
      | none ↦ err NominaError.autorizacion_invalida
      | some amount ↦
          if ltb entry.horas_extra x.horas_solicitadas
          then err NominaError.autorizacion_invalida
          else ok amount
    ])
    else if str_eq x.estado "RECHAZADO"
    then ok 0
    else err NominaError.horas_extra_pendientes

unfoldable pub entry_amount : ℕ → NominaDb → Asistencia → Outcome NominaError ℕ
entry_amount company db entry =
    if entry.horas_extra == 0
    then ok 0
    else or_raise (authorization_of company entry.id db) NominaError.horas_extra_pendientes
      >>= authorized_amount entry

-- The amounts of the loop over the attendance, each with its worker.
unfoldable pub overtime_of : ℕ → NominaDb → List Asistencia → Outcome NominaError (List (ℕ × ℕ))
overtime_of company db [] = ok []
overtime_of company db (entry ∷ entries) = do
  amount ← entry_amount company db entry
  rest ← overtime_of company db entries
  ok ((entry.empleado_id, amount) ∷ rest)

-- `overtime_amounts[empleado_id]`
unfoldable pub overtime_total : ℕ → List (ℕ × ℕ) → ℕ
overtime_total empleado_id [] = 0
overtime_total empleado_id ((k, amount) ∷ rest) =
    let others = overtime_total empleado_id rest in
    if k == empleado_id then amount + others else others
