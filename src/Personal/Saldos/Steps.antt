-- ===== src/Personal/Saldos/Steps.antt =====
-- The requests about leave, and what each does to the balances.
use backend_ssas_rrhh.Base.{
  ℕ, ◌≡◌, ◌≤◌, refl, inl, inr, Bool, true, Option, none, some, [], ◌∷◌, find_first, update_where,
  add_row, updated?, find_first-update_where, ok, arith, Bool-cases, Option-cases, Outcome-cases,
  All-append,
}
use mathlib.Core.Path.{subst}
use backend_ssas_rrhh.Personal.Rows.{
  User, TipoAusencia, SaldoVacacion, Solicitud, Calendario, PersonalDb, user_tenant,
}
use backend_ssas_rrhh.Personal.Ausencias.{
  AbsenceTypeInput, AbsenceTypeUpdate, is_saldo, with_asignados, new_saldo, assign_vacation_balance,
  create_absence_type, update_absence_type,
}
use backend_ssas_rrhh.Personal.Solicitudes.{AbsenceInput, request_absence}
use backend_ssas_rrhh.Personal.Saldos.{
  deducted, total_deducted, BalancedRow, Clean, Balanced, saldo_found, BalancedRow-add_row,
  total_deducted-add_row,
}

module _ (cal : Calendario) (db db' : PersonalDb) (b : Balanced cal db) where
  -- Neither the balances nor the leaves changed.
  same_tables : db'.saldos ≡ db.saldos → db'.solicitudes ≡ db.solicitudes → Balanced cal db'
  same_tables saldos rows = record {
    clean = rw rows b.clean;
    balances = λ c w g. rw (saldos, rows) (b.balances c w g);
  }

  pub create_absence_type-Balanced :
      (user : User) (empresa_id : Option ℕ) (new_id : ℕ) (x : AbsenceTypeInput) (row : TipoAusencia)
      → create_absence_type user empresa_id new_id x db ≡ ok (row, db')
      → Balanced cal db'
  unfolding create_absence_type
  create_absence_type-Balanced user empresa_id new_id x row returned =
      same_tables (ground arith) (ground arith)

  pub update_absence_type-Balanced :
      (user : User) (empresa_id : Option ℕ) (id : ℕ) (x : AbsenceTypeUpdate) (row : TipoAusencia)
      → update_absence_type user empresa_id id x db ≡ ok (row, db')
      → Balanced cal db'
  unfolding update_absence_type
  update_absence_type-Balanced user empresa_id id x row returned =
      same_tables (ground arith) (ground arith)

  -- A new leave waits for a decision.
  pub request_absence-Balanced :
      (user : User) (new_id : ℕ) (x : AbsenceInput) (row : Solicitud)
      → request_absence cal user new_id x db ≡ ok (row, db')
      → Balanced cal db'
  unfolding request_absence
  request_absence-Balanced user new_id x row returned =
      let saldos : db'.saldos ≡ db.saldos = ground arith in
      let rows : db'.solicitudes ≡ add_row row db.solicitudes = ground arith in
      let none_deducted : row.dias_descontados ≡ none = ground arith in
      record {
        clean =
            rw rows (All-append Clean db.solicitudes (row ∷ []) (b.clean, (inr none_deducted, tt)));
        balances = λ c w g.
            let nothing : deducted cal c w g row ≡ 0 = ground arith in
            let total : total_deducted cal c w g (add_row row db.solicitudes)
                ≡ total_deducted cal c w g db.solicitudes =
              omega (arith, total_deducted-add_row cal c w g row db.solicitudes, nothing) in
            rw (saldos, rows, total) (b.balances c w g);
      }

  assigned_row :
      (dias : ℕ) (p : SaldoVacacion → Bool) (o : Option SaldoVacacion) (total : ℕ)
      → ((r : SaldoVacacion) → o ≡ some r → p r ≡ true → r.dias_usados ≤ dias)
      → BalancedRow o total
      → BalancedRow (updated? p (with_asignados dias) o) total
  assigned_row dias p none total enough balanced = balanced
  assigned_row dias p (some r) total enough balanced = elim (Bool-cases (p r)) [
    | inl hit ↦ rw hit (enough r refl hit, balanced.1)
    | inr miss ↦ rw miss balanced
  ]

  pub assign_vacation_balance-Balanced :
      (user : User) (empresa_id : Option ℕ) (new_id w g g' dias : ℕ)
      → assign_vacation_balance user empresa_id new_id w g g' dias db ≡ ok (tt, db')
      → Balanced cal db'
  unfolding assign_vacation_balance
  assign_vacation_balance-Balanced user empresa_id new_id w g g' dias returned =
      elim (Outcome-cases (user_tenant user empresa_id)) [
        | inr (e, failed) ↦ ground arith
        | inl (company, target) ↦
            elim (Option-cases (find_first (is_saldo company w g) db.saldos)) [
              | inl missing ↦
                  let fresh = new_saldo new_id company w g dias in
                  let saldos : db'.saldos ≡ add_row fresh db.saldos = ground arith in
                  let rows : db'.solicitudes ≡ db.solicitudes = ground arith in
                  record {
                    clean = rw rows b.clean;
                    balances = λ c k y.
                        rw (saldos, rows)
                          (BalancedRow-add_row c k y (total_deducted cal c k y db.solicitudes) fresh
                            db.saldos refl (b.balances c k y));
                  }
              | inr (row, found) ↦
                  let p = is_saldo company w g in
                  let saldos : db'.saldos ≡ update_where p (with_asignados dias) db.saldos =
                    ground arith in
                  let rows : db'.solicitudes ≡ db.solicitudes = ground arith in
                  let enough : row.dias_usados ≤ dias = ground arith in
                  record {
                    clean = rw rows b.clean;
                    balances = λ c k y.
                        rw
                          (
                            saldos,
                            rows,
                            find_first-update_where (is_saldo c k y) p (with_asignados dias)
                                db.saldos (λ r. refl),
                          )
                          (assigned_row dias p (find_first (is_saldo c k y) db.saldos)
                            (total_deducted cal c k y db.solicitudes)
                            (λ r there hit.
                              let here : find_first p db.saldos ≡ some r =
                                saldo_found c k y company w g db.saldos there hit in
                              let same : row ≡ r = grind arith in
                              subst (λ (x : SaldoVacacion). x.dias_usados ≤ dias) same enough)
                            (b.balances c k y));
                  }
            ]
      ]
