-- ===== src/Personal/Saldos.antt =====
-- The vacation balances: what is used is what the leaves deduct, and is within what is assigned.
pub mod Steps
pub mod Decision
pub mod Approvals
pub mod Runs
use backend_ssas_rrhh.Base.{
  ℕ, ◌+◌, ◌≡◌, ◌≤◌, refl, sym, ap, ◌∙◌, inl, inr, ◌⊎◌, Bool, true, false, not, ◌&&◌, Option, none,
  some, List, [], ◌∷◌, ◌==◌, All, find_first, update_where, add_row, updated, updated?,
  find_first-update_where, find_first-passes, arith, Bool-cases, Option-cases, ==_iff,
  if◌then◌else◌, All-append,
}
use mathlib.Core.Path.{subst}
use backend_ssas_rrhh.Reclutamiento.Lookup.{update_key}
use backend_ssas_rrhh.Reclutamiento.Keys.{find_first-or_new}
use backend_ssas_rrhh.Personal.Rows.{
  SaldoVacacion, Solicitud, Calendario, PersonalDb, is_pendiente_solicitud,
}
use backend_ssas_rrhh.Personal.Ausencias.{solicitud_key, is_saldo, with_asignados, new_saldo}
use backend_ssas_rrhh.Personal.Decisiones.{with_usados}

-- The leave is of the worker and begins in the year.
abbrev pub is_leave_of : Calendario → ℕ → ℕ → ℕ → Solicitud → Bool
is_leave_of cal company empleado_id gestion s =
    s.empresa_id == company && s.empleado_id == empleado_id && cal.year s.fecha_inicio == gestion

abbrev pub days_of : Option ℕ → ℕ
days_of none = 0
days_of (some d) = d

-- The days that a leave deducts from the balance.
abbrev pub deducted : Calendario → ℕ → ℕ → ℕ → Solicitud → ℕ
deducted cal company empleado_id gestion s =
    if is_leave_of cal company empleado_id gestion s then days_of s.dias_descontados else 0

abbrev pub total_deducted : Calendario → ℕ → ℕ → ℕ → List Solicitud → ℕ
total_deducted cal company empleado_id gestion [] = 0
total_deducted cal company empleado_id gestion (s ∷ rest) =
    deducted cal company empleado_id gestion s + total_deducted cal company empleado_id gestion rest

abbrev pub BalancedRow : Option SaldoVacacion → ℕ → Type 0
BalancedRow none total = total ≡ 0
BalancedRow (some b) total = (b.dias_usados ≤ b.dias_asignados) × (b.dias_usados ≡ total)

-- A leave that waits for a decision deducts nothing.
abbrev pub Clean : Solicitud → Type 0
Clean s = (is_pendiente_solicitud s.estado ≡ false) ⊎ (s.dias_descontados ≡ none)

-- For every worker and year, the days used are those that the leaves deduct, and no more than assigned.
pub record Balanced (cal : Calendario) (db : PersonalDb) : Type 0 where
  pub clean : All Clean db.solicitudes
  pub balances :
      (company empleado_id gestion : ℕ)
      → BalancedRow
          (find_first (is_saldo company empleado_id gestion) db.saldos)
          (total_deducted cal company empleado_id gestion db.solicitudes)

pub All-find_first :
    (P : Solicitud → Type 0) (q : Solicitud → Bool) (rows : List Solicitud) {s : Solicitud}
    → All P rows
    → find_first q rows ≡ some s
    → P s
All-find_first P q [] every found = cc
All-find_first P q (r ∷ rows) {s} (here, every) found = elim (Bool-cases (q r)) [
  | inl passes ↦ let same : r ≡ s = ground arith in subst P same here
  | inr fails ↦ All-find_first P q rows every (ground arith)
]

pub All-update_key :
    (P : Solicitud → Type 0) (i : ℕ) (f : Solicitud → Solicitud) (rows : List Solicitud)
    → ((s : Solicitud) → P (f s))
    → All P rows
    → All P (update_key solicitud_key i f rows)
All-update_key P i f [] made every = tt
All-update_key P i f (r ∷ rows) made (here, every) = elim (Bool-cases (solicitud_key r == i)) [
  | inl same ↦ rw same (made r, every)
  | inr apart ↦ rw apart (here, All-update_key P i f rows made every)
]

module _ (cal : Calendario) (company empleado_id gestion : ℕ) where
  pub total_deducted-add_row :
      (s : Solicitud) (rows : List Solicitud)
      → total_deducted cal company empleado_id gestion (add_row s rows)
        ≡ total_deducted cal company empleado_id gestion rows
          + deducted cal company empleado_id gestion s
  total_deducted-add_row s [] = ground arith
  total_deducted-add_row s (r ∷ rows) = omega (arith, total_deducted-add_row s rows)

  -- One leave changes, which deducted nothing.
  pub total_deducted-update_key :
      (i : ℕ) (f : Solicitud → Solicitud) (rows : List Solicitud) {s : Solicitud}
      → find_first (λ r. solicitud_key r == i) rows ≡ some s
      → deducted cal company empleado_id gestion s ≡ 0
      → total_deducted cal company empleado_id gestion (update_key solicitud_key i f rows)
        ≡ total_deducted cal company empleado_id gestion rows
          + deducted cal company empleado_id gestion (f s)
  total_deducted-update_key i f [] found free = cc
  total_deducted-update_key i f (r ∷ rows) {s} found free =
      elim (Bool-cases (solicitud_key r == i)) [
        | inl same ↦
            let here : r ≡ s = ground arith in
            let old = subst (λ x. deducted cal company empleado_id gestion x ≡ 0) (sym here) free in
            let new = ap (λ x. deducted cal company empleado_id gestion (f x)) here in
            rw same (omega (arith, old, new))
        | inr apart ↦
            let later = total_deducted-update_key i f rows {s = s} (ground arith) free in
            rw apart (omega (arith, later))
      ]

-- A balance that two queries find is that of one worker and year.
pub same_saldo :
    (c w g c' w' g' : ℕ) (saldos : List SaldoVacacion) {r : SaldoVacacion}
    → find_first (is_saldo c w g) saldos ≡ some r
    → is_saldo c' w' g' r ≡ true
    → (c ≡ c') × (w ≡ w') × (g ≡ g')
same_saldo c w g c' w' g' saldos {r} found passes =
    let here = find_first-passes (is_saldo c w g) saldos found in
    (ground arith, ground arith, ground arith)

pub saldo_found :
    (c w g c' w' g' : ℕ) (saldos : List SaldoVacacion) {r : SaldoVacacion}
    → find_first (is_saldo c w g) saldos ≡ some r
    → is_saldo c' w' g' r ≡ true
    → find_first (is_saldo c' w' g') saldos ≡ some r
saldo_found c w g c' w' g' saldos {r} found passes =
    let same = same_saldo c w g c' w' g' saldos found passes in
    subst (λ k. find_first (is_saldo c' w' k) saldos ≡ some r) same.2
      (subst (λ k. find_first (is_saldo c' k g) saldos ≡ some r) same.1
        (subst (λ k. find_first (is_saldo k w g) saldos ≡ some r) same.0 found))

-- A new balance starts with nothing used.
pub BalancedRow-add_row :
    (c w g total : ℕ) (r : SaldoVacacion) (saldos : List SaldoVacacion)
    → r.dias_usados ≡ 0
    → BalancedRow (find_first (is_saldo c w g) saldos) total
    → BalancedRow (find_first (is_saldo c w g) (add_row r saldos)) total
BalancedRow-add_row c w g total r saldos unused balanced =
    rw (find_first-or_new (is_saldo c w g) r saldos)
      (elim (Option-cases (find_first (is_saldo c w g) saldos)) [
        | inr (old, found) ↦ rw found (subst (λ o. BalancedRow o total) found balanced)
        | inl missing ↦
            let nothing : total ≡ 0 = subst (λ o. BalancedRow o total) missing balanced in
            elim (Bool-cases (is_saldo c w g r)) [
              | inl hit ↦ rw (missing, hit) (omega (arith, unused), unused ∙ sym nothing)
              | inr miss ↦ rw (missing, miss) nothing
            ]
      ])
