-- ===== src/Reclutamiento/Agenda/Final.antt =====
-- An interview that is over, over any sequence of requests.
use backend_ssas_rrhh.Base.{
  ℕ, ◌≡◌, refl, sym, ap, ◌∙◌, String, inl, inr, false, some, List, ◌==◌, add_row, ok, arith,
  Bool-cases, ==_iff,
}
use mathlib.Core.Path.{subst}
use backend_ssas_rrhh.Reclutamiento.Rows.{Entrevista, ReclutamientoDb, is_pendiente}
use backend_ssas_rrhh.Reclutamiento.Lookup.{update_key}
use backend_ssas_rrhh.Reclutamiento.Entrevistas.{
  EntrevistaRequest, entrevista_key, new_entrevista, with_datos, crear_entrevista,
}
use backend_ssas_rrhh.Reclutamiento.Keys.{
  find_first-update_key, find_first-update_key_other, find_first-or_new,
}
use backend_ssas_rrhh.Reclutamiento.Requests.{
  InterviewStep, Step, Run, programmed, reprogrammed, moved, held, confirmed, interview,
  application, vacancy, stay, then_step,
}
use backend_ssas_rrhh.Reclutamiento.Agenda.{interview_of}
use backend_ssas_rrhh.Reclutamiento.Agenda.Edits.{
  Settled, estado_entrevista-Settled, resultado_entrevista-Settled, confirmar_entrevista-Settled,
}
use backend_ssas_rrhh.Reclutamiento.Agenda.Bookings.{Edited, editar_entrevista-Edited}
use backend_ssas_rrhh.Reclutamiento.Agenda.Runs.{ApplicationStep-interviews, VacancyStep-interviews}

-- The interview of the id is over, and is what it was.
pub record Over (id : ℕ) (e : Entrevista) (rows : List Entrevista) : Type 0 where
  pub last : Entrevista
  pub found : interview_of id rows ≡ some last
  pub over : is_pendiente last.estado ≡ false
  pub same_state : last.estado ≡ e.estado
  pub same_start : last.fecha_hora ≡ e.fecha_hora
  pub same_length : last.duracion_min ≡ e.duracion_min
  pub same_interviewer : last.entrevistador_id ≡ e.entrevistador_id
  pub same_post : last.postulacion_id ≡ e.postulacion_id

module _ (id : ℕ) (e : Entrevista) where
  -- Another row was changed.
  Over-found :
      (rows rows' : List Entrevista)
      → interview_of id rows' ≡ interview_of id rows
      → Over id e rows
      → Over id e rows'
  Over-found rows rows' same o = record {
    last = o.last;
    found = same ∙ o.found;
    over = o.over;
    same_state = o.same_state;
    same_start = o.same_start;
    same_length = o.same_length;
    same_interviewer = o.same_interviewer;
    same_post = o.same_post;
  }

  -- The row was changed, in none of those columns.
  Over-settled :
      (db db' : ReclutamientoDb) (s : Settled db db')
      → Over s.id e db.entrevistas
      → Over s.id e db'.entrevistas
  Over-settled db db' s o =
      let found = s.found in
      let there = o.found in
      let row : s.row ≡ o.last = grind arith in
      let over = o.over in
      let state = s.state in
      let kept : (s.next s.row).estado ≡ o.last.estado = ground arith in
      record {
        last = s.next s.row;
        found =
            rw
              (
                s.rows,
                find_first-update_key entrevista_key s.id s.next s.key_kept db.entrevistas,
                s.found,
              )
              refl;
        over = rw kept over;
        same_state = kept ∙ o.same_state;
        same_start = s.same_start ∙ ap (λ (r : Entrevista). r.fecha_hora) row ∙ o.same_start;
        same_length = s.same_length ∙ ap (λ (r : Entrevista). r.duracion_min) row ∙ o.same_length;
        same_interviewer =
            s.same_interviewer
            ∙ ap (λ (r : Entrevista). r.entrevistador_id) row
            ∙ o.same_interviewer;
        same_post = s.same_post ∙ ap (λ (r : Entrevista). r.postulacion_id) row ∙ o.same_post;
      }

module _ (id : ℕ) (e : Entrevista) (db db' : ReclutamientoDb) (o : Over id e db.entrevistas) where
  Settled-Over : Settled db db' → Over id e db'.entrevistas
  Settled-Over s = elim (Bool-cases (s.id == id)) [
    | inr apart ↦ rw s.rows (
        Over-found id e db.entrevistas (update_key entrevista_key s.id s.next db.entrevistas)
          (find_first-update_key_other entrevista_key s.id s.next s.key_kept id db.entrevistas
            apart)
          o)
    | inl same ↦
        let same_id : s.id ≡ id = grind (arith, ==_iff s.id id) in
        subst (λ i. Over i e db'.entrevistas) same_id
          (Over-settled id e db db' s (subst (λ i. Over i e db.entrevistas) (sym same_id) o))
  ]

  Edited-Over :
      (i : ℕ) (x : EntrevistaRequest) (old : Entrevista)
      → Edited i x old db db'
      → Over id e db'.entrevistas
  Edited-Over i x old edit = elim (Bool-cases (i == id)) [
    | inr apart ↦ rw edit.rows (
        Over-found id e db.entrevistas (update_key entrevista_key i (with_datos x) db.entrevistas)
          (find_first-update_key_other entrevista_key i (with_datos x) (λ r. refl) id db.entrevistas
            apart)
          o)
    | inl same ↦
        let same_id : i ≡ id = grind (arith, ==_iff i id) in
        let found = subst (λ j. interview_of j db.entrevistas ≡ some old) same_id edit.found in
        let there = o.found in
        let row : old ≡ o.last = grind arith in
        let over = o.over in let waits = edit.waits in ground arith
  ]

  crear_entrevista-Over :
      (permission_codes : ℕ → ℕ → List String) (empresa now new_id : ℕ) (x : EntrevistaRequest)
      (row : Entrevista)
      → crear_entrevista permission_codes empresa now new_id x db ≡ ok (row, db')
      → Over id e db'.entrevistas
  unfolding crear_entrevista
  crear_entrevista-Over permission_codes empresa now new_id x row returned =
      let rows : db'.entrevistas ≡ add_row (new_entrevista new_id x) db.entrevistas =
        ground arith in
      rw rows (
        Over-found id e db.entrevistas (add_row (new_entrevista new_id x) db.entrevistas)
          (rw
            (
              find_first-or_new (λ r. entrevista_key r == id) (new_entrevista new_id x)
                  db.entrevistas,
              o.found,
            )
            refl)
          o)

  InterviewStep-Over : InterviewStep db db' → Over id e db'.entrevistas
  InterviewStep-Over (programmed c m n i x row _ long fresh h) =
      crear_entrevista-Over c m n i x row h
  InterviewStep-Over (reprogrammed c m n i x row _ long h) =
      let edit = editar_entrevista-Edited c m n i x row db db' h in Edited-Over i x edit.0 edit.1
  InterviewStep-Over (moved m i s row _ h) =
      Settled-Over (estado_entrevista-Settled m i s row db db' h)
  InterviewStep-Over (held m n i x row _ h) =
      Settled-Over (resultado_entrevista-Settled m n i x row db db' h)
  InterviewStep-Over (confirmed n c i row _ h) =
      Settled-Over (confirmar_entrevista-Settled n c i row db db' h)

  Step-Over : Step db db' → Over id e db'.entrevistas
  Step-Over (interview s) = InterviewStep-Over s
  Step-Over (application s) = rw (ApplicationStep-interviews db db' s) o
  Step-Over (vacancy s) = rw (VacancyStep-interviews db db' s) o

-- An interview that was held or called off stays so, whatever requests are made in any order: it is
-- still there, in the same state, with its time, its interviewer and its application.
pub Run-Over :
    (id : ℕ) (e : Entrevista) (db db' : ReclutamientoDb)
    → Over id e db.entrevistas
    → Run db db'
    → Over id e db'.entrevistas
Run-Over id e db _ o (stay _) = o
Run-Over id e db db' o (then_step _ mid _ one more) =
    Run-Over id e mid db' (Step-Over id e db mid o one) more
