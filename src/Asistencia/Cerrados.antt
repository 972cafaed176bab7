-- ===== src/Asistencia/Cerrados.antt =====
-- The attendance of a month whose payroll was computed or approved.
use backend_ssas_rrhh.Base.{
  ℕ, ◌≡◌, refl, ◌∙◌, inl, inr, Bool, true, false, ◌&&◌, some, List, [], ◌∷◌, ◌==◌, any, find_first,
  add_row, where_rows, arith, Bool-cases,
}
use backend_ssas_rrhh.Reclutamiento.Lookup.{update_key}
use backend_ssas_rrhh.Personal.Rows.{Calendario}
use backend_ssas_rrhh.Asistencia.Rows.{Fichaje, Correccion, AsistenciaDb, fichaje_key}
use backend_ssas_rrhh.Asistencia.Lookup.{is_closed}
use backend_ssas_rrhh.Asistencia.Decisiones.{with_times}
use backend_ssas_rrhh.Asistencia.Requests.{Ajuste, asked, corrected, claimed, confirmed, authorized}
use backend_ssas_rrhh.Asistencia.Cambios.{request_correction-Asked}
use backend_ssas_rrhh.Asistencia.Cambios.Decidida.{RowChange, kept, changed, added}
use backend_ssas_rrhh.Asistencia.Cambios.Resuelta.{decide_correction-Decided}
use backend_ssas_rrhh.Asistencia.Cambios.Extra.{
  request_overtime-Claimed, decide_overtime_boss-Reviewed, decide_overtime_hr-Closed,
}

-- The attendances of the company in a day.
abbrev pub of_day : ℕ → ℕ → Fichaje → Bool
of_day company day r = r.empresa_id == company && r.fecha == day

abbrev pub day_rows : ℕ → ℕ → AsistenciaDb → List Fichaje
day_rows company day db = where_rows (of_day company day) db.asistencias

module _ (q : Fichaje → Bool) (f : Fichaje → Fichaje) where
  -- A change of a row that does not pass the test, before and after.
  where_rows-update_key :
      (i : ℕ) (rows : List Fichaje) (row : Fichaje)
      → find_first (λ r. fichaje_key r == i) rows ≡ some row
      → q row ≡ false
      → q (f row) ≡ false
      → where_rows q (update_key fichaje_key i f rows) ≡ where_rows q rows
  where_rows-update_key i [] row found before after = refl
  where_rows-update_key i (x ∷ xs) row found before after = elim (Bool-cases (fichaje_key x == i)) [
    | inl same ↦
        let at_row : x ≡ row = ground arith in
        let fx : q (f x) ≡ false = rw at_row after in
        let qx : q x ≡ false = rw at_row before in rw same (rw (fx, qx) refl)
    | inr other ↦
        let rest = where_rows-update_key i xs row (ground arith) before after in
        rw other (rw rest refl)
  ]

  -- A new row of this kind, which is then changed.
  where_rows-added :
      (i : ℕ) (n : Fichaje) (rows : List Fichaje)
      → any (λ (r : Fichaje). r.id == i) rows ≡ false
      → n.id ≡ i
      → q (f n) ≡ false
      → where_rows q (update_key fichaje_key i f (add_row n rows)) ≡ where_rows q rows
  where_rows-added i n [] fresh key after = ground arith
  where_rows-added i n (x ∷ xs) fresh key after =
      let rest = where_rows-added i n xs (ground arith) key after in
      let other : (fichaje_key x == i) ≡ false = ground arith in rw other (rw rest refl)

module _ (company day : ℕ) (own : ℕ) (request : Correccion) (rows rows' : List Fichaje) where
  RowChange-day :
      (own == company && request.fecha == day) ≡ false
      → RowChange own request rows rows'
      → where_rows (of_day company day) rows' ≡ where_rows (of_day company day) rows
  RowChange-day apart (kept same) = rw same refl
  RowChange-day apart (changed row w o l named found empresa empleado fecha same) = rw same (
      where_rows-update_key (of_day company day) (with_times request w o l) row.id rows row found
        (ground arith) (ground arith))
  RowChange-day apart (added n w o l empresa empleado fecha fresh first same) = rw same (
      where_rows-added (of_day company day) (with_times request w o l) n.id n rows fresh refl
        (ground arith))

-- What one request leaves: the periods, and the attendances of a day of a closed period.
record Frozen (company day : ℕ) (db db' : AsistenciaDb) : Type 0 where
  periodos : db'.periodos ≡ db.periodos
  rows : day_rows company day db' ≡ day_rows company day db

Frozen-same :
    (company day : ℕ) (db db' : AsistenciaDb)
    → db'.periodos ≡ db.periodos
    → db'.asistencias ≡ db.asistencias
    → Frozen company day db db'
Frozen-same company day db db' periodos rows = record { periodos = periodos; rows = rw rows refl }

Ajuste-Frozen :
    (wall : ℕ → ℕ) (cal : Calendario) (company day : ℕ) (db db' : AsistenciaDb)
    → is_closed cal company day db ≡ true
    → Ajuste wall cal db db'
    → Frozen company day db db'
Ajuste-Frozen wall cal company day db db' over (asked user now new_id x r _ h) =
    let k = request_correction-Asked wall cal user now new_id x r db db' h in
    Frozen-same company day db db' k.periodos k.asistencias
Ajuste-Frozen wall cal company day db db' over (corrected user now new_id id x r _ h) =
    let d = decide_correction-Decided wall cal user now new_id id x r db db' h in
    let open_day = d.waiting.editable in
    let apart : (d.company == company && d.request.fecha == day) ≡ false =
      elim (Bool-cases (d.company == company && d.request.fecha == day)) [
        | inr other ↦ other
        | inl both ↦
            let same_company : d.company ≡ company = ground arith in
            let same_day : d.request.fecha ≡ day = ground arith in
            let still_open : is_closed cal company day db ≡ false =
              rw (← same_company, ← same_day) open_day in
            absurd (ground arith)
      ] in
    record {
      periodos = d.periodos;
      rows =
          RowChange-day company day d.company d.request db.asistencias db'.asistencias apart d.rows;
    }
Ajuste-Frozen wall cal company day db db' over (claimed user new_id x a _ h) =
    let k = request_overtime-Claimed cal user new_id x a db db' h in
    Frozen-same company day db db' k.others.periodos k.others.asistencias
Ajuste-Frozen wall cal company day db db' over (confirmed user now id x a _ h) =
    let (request, v, _, _) = decide_overtime_boss-Reviewed wall cal user now id x a db db' h in
    Frozen-same company day db db' v.others.periodos v.others.asistencias
Ajuste-Frozen wall cal company day db db' over (authorized user now id x a _ h) =
    let k = decide_overtime_hr-Closed wall cal user now id x a db db' h in
    Frozen-same company day db db' k.reviewed.others.periodos k.reviewed.others.asistencias

-- Requests about corrections and overtime, in any order.
pub data AjusteRun (wall : ℕ → ℕ) (cal : Calendario) : AsistenciaDb → AsistenciaDb → Type 0 where
  stay : (db : AsistenciaDb) → AjusteRun wall cal db db
  then_ajuste :
      (db mid db' : AsistenciaDb)
      → Ajuste wall cal db mid
      → AjusteRun wall cal mid db'
      → AjusteRun wall cal db db'

-- Where the payroll of a day's month was computed or approved for the company, no sequence of requests
-- about corrections and overtime, of any company and in any order, changes, adds or removes an attendance
-- of the company on that day.
pub AjusteRun-day_rows :
    (wall : ℕ → ℕ) (cal : Calendario) (company day : ℕ) (db db' : AsistenciaDb)
    → is_closed cal company day db ≡ true
    → AjusteRun wall cal db db'
    → day_rows company day db' ≡ day_rows company day db
AjusteRun-day_rows wall cal company day db _ over (stay _) = refl
AjusteRun-day_rows wall cal company day db db' over (then_ajuste _ mid _ one more) =
    let f = Ajuste-Frozen wall cal company day db mid over one in
    let periods = f.periodos in
    AjusteRun-day_rows wall cal company day mid db' (rw periods over) more ∙ f.rows
