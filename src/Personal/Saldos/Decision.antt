-- ===== src/Personal/Saldos/Decision.antt =====
-- What a decision on a leave finds, and the balance that it takes days from.
use backend_ssas_rrhh.Base.{
  ℕ, ◌+◌, ◌≡◌, ◌≤◌, sym, ◌∙◌, inl, inr, true, Option, some, ◌==◌, find_first, update_where,
  updated?, find_first-passes, ok, arith, Bool-cases, Option-cases, Outcome-cases, if◌then◌else◌,
}
use mathlib.Core.Path.{subst}
use backend_ssas_rrhh.Reclutamiento.Lookup.{find_key}
use backend_ssas_rrhh.Reclutamiento.Keys.{find_key-found}
use backend_ssas_rrhh.Personal.Rows.{
  User, SaldoVacacion, Solicitud, Calendario, PersonalDb, is_pendiente_solicitud,
}
use backend_ssas_rrhh.Personal.Ausencias.{solicitud_key, is_saldo}
use backend_ssas_rrhh.Personal.Decisiones.{with_usados, verified_days, take_days, check_decision}
use backend_ssas_rrhh.Personal.Saldos.{is_leave_of, BalancedRow, saldo_found}

-- The request that a decision is about: it is there, of the company, and waits.
pub record Waiting (company id : ℕ) (row : Solicitud) (db : PersonalDb) : Type 0 where
  pub found : find_first (λ s. solicitud_key s == row.id) db.solicitudes ≡ some row
  pub at_id : row.id ≡ id
  pub own : (row.empresa_id == company) ≡ true
  pub waits : is_pendiente_solicitud row.estado ≡ true

pub check_decision-Waiting :
    (user : User) (company id : ℕ) (db : PersonalDb) {row : Solicitud}
    → check_decision user company id db ≡ ok row
    → Waiting company id row db
unfolding check_decision
check_decision-Waiting user company id db {row} checked =
    elim (Option-cases
      (find_key solicitud_key id (λ (s : Solicitud). s.empresa_id == company) db.solicitudes)) [
        | inl missing ↦ ground arith
        | inr (s, there) ↦
            let same : s ≡ row = ground arith in
            let waiting : is_pendiente_solicitud s.estado ≡ true = ground arith in
            let found =
              find_key-found solicitud_key id (λ (r : Solicitud). r.empresa_id == company)
                db.solicitudes there in
            subst (λ r. Waiting company id r db) same
              (record {
                found =
                    subst (λ i. find_first (λ r. solicitud_key r == i) db.solicitudes ≡ some s)
                      (sym found.1) found.0;
                at_id = found.1;
                own = found.2;
                waits = waiting;
              })
      ]

-- The balance that an approval takes the days from.
pub record Taken (cal : Calendario) (company : ℕ) (row : Solicitud) (d : ℕ) (db db' : PersonalDb)
    : Type 0 where
  pub balance : SaldoVacacion
  pub found :
      find_first (is_saldo company row.empleado_id (cal.year row.fecha_inicio)) db.saldos
      ≡ some balance
  pub enough : balance.dias_usados + d ≤ balance.dias_asignados
  pub saldos :
      db'.saldos
      ≡ update_where
          (is_saldo company row.empleado_id (cal.year row.fecha_inicio))
          (with_usados d)
          db.saldos
  pub rows : db'.solicitudes ≡ db.solicitudes

pub take_days-Taken :
    (cal : Calendario) (company : ℕ) (row : Solicitud) (habiles : Option ℕ) (d : ℕ)
    (db db' : PersonalDb)
    → take_days cal company row habiles db ≡ ok (d, db')
    → Taken cal company row d db db'
unfolding take_days
take_days-Taken cal company row habiles d db db' returned =
    elim (Option-cases
      (find_first (is_saldo company row.empleado_id (cal.year row.fecha_inicio)) db.saldos)) [
        | inl missing ↦ ground arith
        | inr (b, there) ↦ elim (Outcome-cases (verified_days habiles row.dias_solicitados)) [
          | inr (e, failed) ↦ ground arith
          | inl (d', verified) ↦
              let same : d' ≡ d = ground arith in
              record {
                balance = b;
                found = there;
                enough = ground arith;
                saldos = ground arith;
                rows = ground arith;
              }
        ]
      ]

module _ (cal : Calendario) (company : ℕ) (row : Solicitud) (d : ℕ) (db db' : PersonalDb)
    (own : (row.empresa_id == company) ≡ true) (t : Taken cal company row d db db') where
  -- A balance changes by what the leave deducts from it.
  pub taken_row :
      (c w g total : ℕ)
      → BalancedRow (find_first (is_saldo c w g) db.saldos) total
      → BalancedRow
          (updated?
            (is_saldo company row.empleado_id (cal.year row.fecha_inicio))
            (with_usados d)
            (find_first (is_saldo c w g) db.saldos))
          (total + (if is_leave_of cal c w g row then d else 0))
  taken_row c w g total balanced = elim (Option-cases (find_first (is_saldo c w g) db.saldos)) [
    | inl missing ↦
        let nothing : total ≡ 0 = subst (λ o. BalancedRow o total) missing balanced in
        rw missing (elim (Bool-cases (is_leave_of cal c w g row)) [
          | inr other ↦ rw other (omega (arith, nothing))
          | inl leave ↦
              let there = t.found in
              let passes = find_first-passes _ db.saldos there in
              let hit : is_saldo c w g t.balance ≡ true = ground arith in
              let here =
                saldo_found company row.empleado_id (cal.year row.fecha_inicio) c w g db.saldos
                  there hit in
              ground arith
        ])
    | inr (r, found) ↦
        let passes = find_first-passes (is_saldo c w g) db.saldos found in
        let before = subst (λ o. BalancedRow o total) found balanced in
        let same_test : is_saldo company row.empleado_id (cal.year row.fecha_inicio) r
            ≡ is_leave_of cal c w g row =
          ground arith in
        rw found (elim (Bool-cases (is_leave_of cal c w g row)) [
          | inr other ↦ rw (same_test, other) (before.0, omega (arith, before.1))
          | inl leave ↦
              let here =
                saldo_found c w g company row.empleado_id (cal.year row.fecha_inicio) db.saldos
                  found (same_test ∙ leave) in
              let there = t.found in
              let same : t.balance ≡ r = grind arith in
              let enough =
                subst (λ (x : SaldoVacacion). x.dias_usados + d ≤ x.dias_asignados) same t.enough in
              rw (same_test, leave) (enough, omega (arith, before.1))
        ])
  ]
