-- ===== src/Personal/Solapes.antt =====
-- The leaves of a worker do not overlap.
use backend_ssas_rrhh.Base.{
  ℕ, ◌≡◌, refl, sym, inl, inr, Bool, true, false, not, ◌&&◌, Option, some, List, [], ◌∷◌, ◌==◌, leb,
  any, All, find_first, add_row, ok, arith, Bool-cases, Outcome-cases,
}
use mathlib.Core.Path.{subst}
use backend_ssas_rrhh.Reclutamiento.Lookup.{update_key, find_key}
use backend_ssas_rrhh.Personal.Rows.{
  User, TipoAusencia, Solicitud, Calendario, PersonalDb, is_viva, user_tenant,
}
use backend_ssas_rrhh.Personal.Ausencias.{
  solicitud_key, tipo_key, assign_vacation_balance, create_absence_type, update_absence_type,
}
use backend_ssas_rrhh.Personal.Solicitudes.{meets, request_absence}
use backend_ssas_rrhh.Personal.Decisiones.{
  AbsenceDecision, resolved, discounts, take_days, check_decision, decide_absence,
}
use backend_ssas_rrhh.Personal.Requests.{
  LeaveStep, LeaveRun, assigned, type_created, type_updated, requested, decided, stay, then_step,
}
use backend_ssas_rrhh.Personal.Saldos.Decision.{Waiting, check_decision-Waiting, take_days-Taken}

-- The two leaves are not of one worker, or one of them was refused, or they share no day.
abbrev pub apart : Solicitud → Solicitud → Bool
apart s t = not (
    s.empresa_id == t.empresa_id
    && s.empleado_id == t.empleado_id
    && is_viva s.estado
    && is_viva t.estado
    && leb s.fecha_inicio t.fecha_fin
    && leb t.fecha_inicio s.fecha_fin)

-- No two leaves that wait or were approved overlap.
abbrev pub NoOverlap : List Solicitud → Type 0
NoOverlap [] = Unit
NoOverlap (s ∷ rest) = All (λ t. apart s t ≡ true) rest × NoOverlap rest

All-add_row :
    (s n : Solicitud) (rows : List Solicitud)
    → All (λ t. apart s t ≡ true) rows
    → apart s n ≡ true
    → All (λ t. apart s t ≡ true) (add_row n rows)
All-add_row s n [] every last = (last, tt)
All-add_row s n (t ∷ rows) (here, every) last = (here, All-add_row s n rows every last)

-- A new leave that meets none of the worker's.
NoOverlap-add_row :
    (n : Solicitud) (rows : List Solicitud)
    → any (meets n.empresa_id n.empleado_id n.fecha_inicio n.fecha_fin) rows ≡ false
    → NoOverlap rows
    → NoOverlap (add_row n rows)
NoOverlap-add_row n [] free rows_free = (tt, tt)
NoOverlap-add_row n (s ∷ rows) free (every, rest) =
    let first : meets n.empresa_id n.empleado_id n.fecha_inicio n.fecha_fin s ≡ false =
      ground arith in
    let last : apart s n ≡ true = ground arith in
    (All-add_row s n rows every last, NoOverlap-add_row n rows (ground arith) rest)

-- The same worker and days, and it waits or was approved only if it did before.
pub record Fewer (s s' : Solicitud) : Type 0 where
  pub empresa : s'.empresa_id ≡ s.empresa_id
  pub empleado : s'.empleado_id ≡ s.empleado_id
  pub inicio : s'.fecha_inicio ≡ s.fecha_inicio
  pub fin : s'.fecha_fin ≡ s.fecha_fin
  pub was : is_viva s.estado ≡ true

apart-first : (s s' t : Solicitud) → Fewer s s' → apart s t ≡ true → apart s' t ≡ true
apart-first s s' t f h =
    let was = f.was in rw (f.empresa, f.empleado, f.inicio, f.fin) (ground arith)

apart-second : (s t t' : Solicitud) → Fewer t t' → apart s t ≡ true → apart s t' ≡ true
apart-second s t t' f h =
    let was = f.was in rw (f.empresa, f.empleado, f.inicio, f.fin) (ground arith)

All-first :
    (s s' : Solicitud) (rows : List Solicitud)
    → Fewer s s'
    → All (λ t. apart s t ≡ true) rows
    → All (λ t. apart s' t ≡ true) rows
All-first s s' [] f every = tt
All-first s s' (t ∷ rows) f (here, every) = (apart-first s s' t f here, All-first s s' rows f every)

module _ (i : ℕ) (f : Solicitud → Solicitud) where
  All-second :
      (s : Solicitud) (rows : List Solicitud) {x : Solicitud}
      → find_first (λ r. solicitud_key r == i) rows ≡ some x
      → Fewer x (f x)
      → All (λ t. apart s t ≡ true) rows
      → All (λ t. apart s t ≡ true) (update_key solicitud_key i f rows)
  All-second s [] found fewer every = tt
  All-second s (t ∷ rows) {x} found fewer (here, every) = elim (Bool-cases (solicitud_key t == i)) [
    | inl same ↦
        let at_x : t ≡ x = ground arith in
        rw same (apart-second s t (f t) (subst (λ y. Fewer y (f y)) (sym at_x) fewer) here, every)
    | inr other ↦ rw other (here, All-second s rows {x = x} (ground arith) fewer every)
  ]

  NoOverlap-update_key :
      (rows : List Solicitud) {x : Solicitud}
      → find_first (λ r. solicitud_key r == i) rows ≡ some x
      → Fewer x (f x)
      → NoOverlap rows
      → NoOverlap (update_key solicitud_key i f rows)
  NoOverlap-update_key [] found fewer free = tt
  NoOverlap-update_key (t ∷ rows) {x} found fewer (every, rest) =
      elim (Bool-cases (solicitud_key t == i)) [
        | inl same ↦
            let at_x : t ≡ x = ground arith in
            rw same
              (All-first t (f t) rows (subst (λ y. Fewer y (f y)) (sym at_x) fewer) every, rest)
        | inr other ↦ rw other (
          All-second t rows {x = x} (ground arith) fewer every,
          NoOverlap-update_key rows {x = x} (ground arith) fewer rest,
        )
      ]

-- The row that a decision leaves.
resolved-Fewer :
    (user : User) (company now id : ℕ) (x : AbsenceDecision) (desc : Option ℕ) (row : Solicitud)
    (db : PersonalDb)
    → Waiting company id row db
    → Fewer row (resolved user now x desc row)
resolved-Fewer user company now id x desc row db w =
    let waits = w.waits in
    record { empresa = refl; empleado = refl; inicio = refl; fin = refl; was = ground arith }

decide_absence-NoOverlap :
    (cal : Calendario) (user : User) (empresa_id : Option ℕ) (now id : ℕ) (x : AbsenceDecision)
    (row : Solicitud) (db db' : PersonalDb)
    → NoOverlap db.solicitudes
    → decide_absence cal user empresa_id now id x db ≡ ok (row, db')
    → NoOverlap db'.solicitudes
unfolding decide_absence
decide_absence-NoOverlap cal user empresa_id now id x row db db' free returned =
    elim (Outcome-cases (user_tenant user empresa_id)) [
      | inr (e, failed) ↦ ground arith
      | inl (company, target) ↦ elim (Outcome-cases (check_decision user company id db)) [
        | inr (e, failed) ↦ ground arith
        | inl (s, checked) ↦
            let w = check_decision-Waiting user company id db checked in
            let kind =
              find_key tipo_key s.tipo_ausencia_id (λ (t : TipoAusencia). t.empresa_id == company)
                db.tipos in
            let done = λ (desc : Option ℕ).
              NoOverlap-update_key s.id (resolved user now x desc) db.solicitudes w.found
                (resolved-Fewer user company now id x desc s db w) free in
            elim (Outcome-cases (discounts x.aprobar kind)) [
              | inr (e, failed) ↦ ground arith
              | inl (false, plain) ↦
                  let rows : db'.solicitudes
                      ≡ update_key solicitud_key s.id (resolved user now x s.dias_descontados)
                          db.solicitudes =
                    ground arith in
                  rw rows (done s.dias_descontados)
              | inl (true, vacation) ↦
                  elim (Outcome-cases (take_days cal company s x.dias_habiles_vacacion db)) [
                    | inr (e, failed) ↦ ground arith
                    | inl ((d, mid), taken) ↦
                        let t =
                          take_days-Taken cal company s x.dias_habiles_vacacion d db mid taken in
                        let rows : db'.solicitudes
                            ≡ update_key solicitud_key s.id (resolved user now x (some d))
                                mid.solicitudes =
                          ground arith in
                        rw (rows, t.rows) (done (some d))
                  ]
            ]
      ]
    ]

LeaveStep-NoOverlap :
    (cal : Calendario) (db db' : PersonalDb)
    → NoOverlap db.solicitudes
    → LeaveStep cal db db'
    → NoOverlap db'.solicitudes
unfolding assign_vacation_balance create_absence_type update_absence_type request_absence
LeaveStep-NoOverlap cal db db' free (assigned u e n w g g' d _ h) =
    let rows : db'.solicitudes ≡ db.solicitudes = ground arith in rw rows free
LeaveStep-NoOverlap cal db db' free (type_created u e n x row _ h) =
    let rows : db'.solicitudes ≡ db.solicitudes = ground arith in rw rows free
LeaveStep-NoOverlap cal db db' free (type_updated u e i x row _ h) =
    let rows : db'.solicitudes ≡ db.solicitudes = ground arith in rw rows free
LeaveStep-NoOverlap cal db db' free (requested u n x row _ h) =
    let rows : db'.solicitudes ≡ add_row row db.solicitudes = ground arith in
    let unmet : any (meets row.empresa_id row.empleado_id row.fecha_inicio row.fecha_fin)
          db.solicitudes
        ≡ false =
      ground arith in
    rw rows (NoOverlap-add_row row db.solicitudes unmet free)
LeaveStep-NoOverlap cal db db' free (decided u e n i x row _ h) =
    decide_absence-NoOverlap cal u e n i x row db db' free h

-- Whatever requests about leave are made, in any order, no worker comes to have two leaves that wait or
-- were approved and share a day, where there were none at the start.
pub LeaveRun-NoOverlap :
    (cal : Calendario) (db db' : PersonalDb)
    → NoOverlap db.solicitudes
    → LeaveRun cal db db'
    → NoOverlap db'.solicitudes
LeaveRun-NoOverlap cal db _ free (stay _) = free
LeaveRun-NoOverlap cal db db' free (then_step _ mid _ one more) =
    LeaveRun-NoOverlap cal mid db' (LeaveStep-NoOverlap cal db mid free one) more
