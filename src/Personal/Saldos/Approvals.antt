-- ===== src/Personal/Saldos/Approvals.antt =====
-- The decision on a leave keeps the balances.
use backend_ssas_rrhh.Base.{
  ℕ, ◌≡◌, refl, ap, ◌∙◌, inl, inr, true, false, Option, some, ◌==◌, update_where,
  find_first-update_where, ok, arith, Bool-cases, Outcome-cases,
}
use backend_ssas_rrhh.Reclutamiento.Lookup.{update_key, find_key}
use backend_ssas_rrhh.Personal.Rows.{
  User, TipoAusencia, Solicitud, Calendario, PersonalDb, user_tenant,
}
use backend_ssas_rrhh.Personal.Ausencias.{tipo_key, solicitud_key, is_saldo}
use backend_ssas_rrhh.Personal.Decisiones.{
  AbsenceDecision, with_usados, resolved, discounts, take_days, check_decision, decide_absence,
}
use backend_ssas_rrhh.Personal.Saldos.{
  deducted, total_deducted, Clean, Balanced, All-find_first, All-update_key,
  total_deducted-update_key,
}
use backend_ssas_rrhh.Personal.Saldos.Decision.{
  Waiting, check_decision-Waiting, Taken, take_days-Taken, taken_row,
}

resolved-Clean :
    (user : User) (now : ℕ) (x : AbsenceDecision) (desc : Option ℕ) (s : Solicitud)
    → Clean (resolved user now x desc s)
resolved-Clean user now x desc s = elim (Bool-cases x.aprobar) [
  | inl yes_ ↦ inl (rw yes_ refl)
  | inr no_ ↦ inl (rw no_ refl)
]

module _ (cal : Calendario) (user : User) (company now id : ℕ) (x : AbsenceDecision)
    (row : Solicitud) (db db' : PersonalDb) (b : Balanced cal db)
    (w : Waiting company id row db) where
  unresolved : (c k g : ℕ) → deducted cal c k g row ≡ 0
  unresolved c k g =
      let waits = w.waits in
      let clean =
        All-find_first Clean (λ s. solicitud_key s == row.id) db.solicitudes b.clean w.found in
      ground arith

  -- A decision that takes nothing from a balance.
  settled_plain :
      db'.saldos ≡ db.saldos
      → db'.solicitudes
        ≡ update_key solicitud_key row.id (resolved user now x row.dias_descontados) db.solicitudes
      → Balanced cal db'
  settled_plain saldos rows = record {
    clean = rw rows (
        All-update_key Clean row.id (resolved user now x row.dias_descontados) db.solicitudes
          (resolved-Clean user now x row.dias_descontados) b.clean);
    balances = λ c k g.
        let nothing = unresolved c k g in
        let changed =
          total_deducted-update_key cal c k g row.id (resolved user now x row.dias_descontados)
            db.solicitudes w.found nothing in
        let total : total_deducted cal c k g (
              update_key solicitud_key row.id (resolved user now x row.dias_descontados)
                db.solicitudes)
            ≡ total_deducted cal c k g db.solicitudes =
          omega (arith, changed, nothing) in
        rw (saldos, rows, total) (b.balances c k g);
  }

  -- A decision that takes days from the balance.
  settled_vacation :
      (d : ℕ) (mid : PersonalDb)
      → Taken cal company row d db mid
      → db'.saldos ≡ mid.saldos
      → db'.solicitudes
        ≡ update_key solicitud_key row.id (resolved user now x (some d)) mid.solicitudes
      → Balanced cal db'
  settled_vacation d mid t saldos rows =
      let f = resolved user now x (some d) in
      let all_rows : db'.solicitudes ≡ update_key solicitud_key row.id f db.solicitudes =
        rows ∙ ap (update_key solicitud_key row.id f) t.rows in
      let p = is_saldo company row.empleado_id (cal.year row.fecha_inicio) in
      let all_saldos : db'.saldos ≡ update_where p (with_usados d) db.saldos = saldos ∙ t.saldos in
      record {
        clean = rw all_rows (
            All-update_key Clean row.id f db.solicitudes (resolved-Clean user now x (some d))
              b.clean);
        balances = λ c k g.
            rw
              (
                all_saldos,
                all_rows,
                total_deducted-update_key cal c k g row.id f db.solicitudes w.found
                    (unresolved c k g),
                find_first-update_where (is_saldo c k g) p (with_usados d) db.saldos (λ r. refl),
              )
              (taken_row cal company row d db mid w.own t c k g
                (total_deducted cal c k g db.solicitudes) (b.balances c k g));
      }

pub decide_absence-Balanced :
    (cal : Calendario) (user : User) (empresa_id : Option ℕ) (now id : ℕ) (x : AbsenceDecision)
    (row : Solicitud) (db db' : PersonalDb)
    → Balanced cal db
    → decide_absence cal user empresa_id now id x db ≡ ok (row, db')
    → Balanced cal db'
unfolding decide_absence
decide_absence-Balanced cal user empresa_id now id x row db db' b returned =
    elim (Outcome-cases (user_tenant user empresa_id)) [
      | inr (e, failed) ↦ ground arith
      | inl (company, target) ↦ elim (Outcome-cases (check_decision user company id db)) [
        | inr (e, failed) ↦ ground arith
        | inl (s, checked) ↦
            let w = check_decision-Waiting user company id db checked in
            let kind =
              find_key tipo_key s.tipo_ausencia_id (λ (t : TipoAusencia). t.empresa_id == company)
                db.tipos in
            elim (Outcome-cases (discounts x.aprobar kind)) [
              | inr (e, failed) ↦ ground arith
              | inl (false, plain) ↦
                  settled_plain cal user company now id x s db db' b w (ground arith) (ground arith)
              | inl (true, vacation) ↦
                  elim (Outcome-cases (take_days cal company s x.dias_habiles_vacacion db)) [
                    | inr (e, failed) ↦ ground arith
                    | inl ((d, mid), taken) ↦
                        settled_vacation cal user company now id x s db db' b w d mid
                          (take_days-Taken cal company s x.dias_habiles_vacacion d db mid taken)
                          (ground arith) (ground arith)
                  ]
            ]
      ]
    ]
