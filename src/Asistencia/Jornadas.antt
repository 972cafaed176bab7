-- ===== src/Asistencia/Jornadas.antt =====
-- A worker has one attendance a day.
use backend_ssas_rrhh.Base.{
  ℕ, ◌≡◌, refl, ◌∙◌, inl, inr, Bool, false, List, [], ◌∷◌, ◌==◌, any, add_row, arith, Bool-cases,
}
use backend_ssas_rrhh.Reclutamiento.Lookup.{update_key}
use backend_ssas_rrhh.Personal.Rows.{Calendario}
use backend_ssas_rrhh.Asistencia.Rows.{Fichaje, Correccion, AsistenciaDb, fichaje_key}
use backend_ssas_rrhh.Asistencia.Lookup.{is_clocked}
use backend_ssas_rrhh.Asistencia.Fichar.{with_salida}
use backend_ssas_rrhh.Asistencia.Decisiones.{with_times}
use backend_ssas_rrhh.Asistencia.Requests.{
  Step, Run, asked, corrected, claimed, confirmed, authorized, entered, left, adjusted, stay,
  then_step,
}
use backend_ssas_rrhh.Asistencia.Tablas.{any-add_row}
use backend_ssas_rrhh.Asistencia.Cambios.{
  clock_in-Entered, clock_out-Left, request_correction-Asked,
}
use backend_ssas_rrhh.Asistencia.Cambios.Decidida.{RowChange, kept, changed, added}
use backend_ssas_rrhh.Asistencia.Cambios.Resuelta.{decide_correction-Decided}
use backend_ssas_rrhh.Asistencia.Cambios.Extra.{
  request_overtime-Claimed, decide_overtime_boss-Reviewed, decide_overtime_hr-Closed,
}

-- Another attendance of the same worker on the same day.
abbrev pub same_day : Fichaje → Fichaje → Bool
same_day r = is_clocked r.empresa_id r.empleado_id r.fecha

abbrev pub OneADay : List Fichaje → Type 0
OneADay [] = Unit
OneADay (r ∷ rows) = (any (same_day r) rows ≡ false) × OneADay rows

OneADay-add_row :
    (n : Fichaje) (rows : List Fichaje)
    → any (same_day n) rows ≡ false
    → OneADay rows
    → OneADay (add_row n rows)
OneADay-add_row n [] first all = (refl, tt)
OneADay-add_row n (r ∷ rows) first (alone, rest) = (
  any-add_row (same_day r) n rows alone (ground arith),
  OneADay-add_row n rows (ground arith) rest,
)

-- The change leaves the company, the worker and the day.
module _ (i : ℕ) (f : Fichaje → Fichaje) (company : (r : Fichaje) → (f r).empresa_id ≡ r.empresa_id)
    (worker : (r : Fichaje) → (f r).empleado_id ≡ r.empleado_id)
    (day : (r : Fichaje) → (f r).fecha ≡ r.fecha) where
  any-same_day :
      (c w d : ℕ) (rows : List Fichaje)
      → any (is_clocked c w d) (update_key fichaje_key i f rows) ≡ any (is_clocked c w d) rows
  any-same_day c w d [] = refl
  any-same_day c w d (r ∷ rows) =
      ground (arith, company r, worker r, day r, any-same_day c w d rows)

  OneADay-update_key :
      (rows : List Fichaje) → OneADay rows → OneADay (update_key fichaje_key i f rows)
  OneADay-update_key [] all = tt
  OneADay-update_key (r ∷ rows) (alone, rest) = elim (Bool-cases (fichaje_key r == i)) [
    | inl same ↦ rw same (rw (company r, worker r, day r) alone, rest)
    | inr other ↦
        rw other (
          any-same_day r.empresa_id r.empleado_id r.fecha rows ∙ alone,
          OneADay-update_key rows rest,
        )
  ]

RowChange-OneADay :
    (company : ℕ) (request : Correccion) (rows rows' : List Fichaje)
    → RowChange company request rows rows'
    → OneADay rows
    → OneADay rows'
RowChange-OneADay company request rows rows' (kept same) all = rw same all
RowChange-OneADay company request rows rows' (changed row w o l _ _ _ _ _ same) all = rw same (
    OneADay-update_key row.id (with_times request w o l) (λ r. refl) (λ r. refl) (λ r. refl) rows
      all)
RowChange-OneADay company request rows rows' (added n w o l empresa empleado fecha _ first same)
      all =
    let alone : any (same_day n) rows ≡ false = rw (empresa, empleado, fecha) first in
    rw same (
      OneADay-update_key n.id (with_times request w o l) (λ r. refl) (λ r. refl) (λ r. refl)
        (add_row n rows) (OneADay-add_row n rows alone all))

Step-OneADay :
    (wall : ℕ → ℕ) (cal : Calendario) (db db' : AsistenciaDb)
    → OneADay db.asistencias
    → Step wall cal db db'
    → OneADay db'.asistencias
Step-OneADay wall cal db db' all (entered user now new_id gps r _ h) =
    let e = clock_in-Entered wall user now new_id gps r db db' h in
    rw e.rows (OneADay-add_row r db.asistencias e.first all)
Step-OneADay wall cal db db' all (left user now gps r _ h) =
    let (row, worked, overtime, l) = clock_out-Left user now gps r db db' h in
    rw l.rows (
      OneADay-update_key row.id (with_salida now gps worked overtime) (λ r. refl) (λ r. refl)
        (λ r. refl) db.asistencias all)
Step-OneADay wall cal db db' all (adjusted _ (asked user now new_id x r _ h)) =
    rw (request_correction-Asked wall cal user now new_id x r db db' h).asistencias all
Step-OneADay wall cal db db' all (adjusted _ (corrected user now new_id id x r _ h)) =
    let d = decide_correction-Decided wall cal user now new_id id x r db db' h in
    RowChange-OneADay d.company d.request db.asistencias db'.asistencias d.rows all
Step-OneADay wall cal db db' all (adjusted _ (claimed user new_id x a _ h)) =
    rw (request_overtime-Claimed cal user new_id x a db db' h).others.asistencias all
Step-OneADay wall cal db db' all (adjusted _ (confirmed user now id x a _ h)) =
    let (request, v, _, _) = decide_overtime_boss-Reviewed wall cal user now id x a db db' h in
    rw v.others.asistencias all
Step-OneADay wall cal db db' all (adjusted _ (authorized user now id x a _ h)) =
    rw (decide_overtime_hr-Closed wall cal user now id x a db db' h).reviewed.others.asistencias all

-- Whatever requests about attendance are made, in any order, no worker comes to have two attendances on
-- one day in a company, where there were none at the start.
pub Run-OneADay :
    (wall : ℕ → ℕ) (cal : Calendario) (db db' : AsistenciaDb)
    → OneADay db.asistencias
    → Run wall cal db db'
    → OneADay db'.asistencias
Run-OneADay wall cal db _ all (stay _) = all
Run-OneADay wall cal db db' all (then_step _ mid _ one more) =
    Run-OneADay wall cal mid db' (Step-OneADay wall cal db mid all one) more
