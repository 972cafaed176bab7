-- ===== src/Reclutamiento/Agenda/Edits.antt =====
-- What a request does to one interview: a change of its state keeps its time, and a time that is set
-- was checked against the other interviews of the interviewer.
use backend_ssas_rrhh.Base.{
  ℕ, ◌≡◌, refl, inl, inr, ◌⊎◌, true, false, Option, none, some, String, find_first, ok, arith,
  Option-cases, Outcome-cases, str_eq,
}
use mathlib.Core.Path.{subst}
use backend_ssas_rrhh.Reclutamiento.Rows.{
  EstadoEntrevista, Postulacion, Entrevista, ReclutamientoDb, is_pendiente,
}
use backend_ssas_rrhh.Reclutamiento.Lookup.{
  SeleccionError, seleccion_error, update_key, find_key, entrevista, application_in_company,
}
use backend_ssas_rrhh.Reclutamiento.Entrevistas.{entrevista_key}
use backend_ssas_rrhh.Reclutamiento.Transiciones.{
  ResultadoRequest, transicion_entrevista, with_estado, with_resultado, is_proxima,
  estado_entrevista, resultado_entrevista, confirmar_entrevista,
}
use backend_ssas_rrhh.Reclutamiento.Keys.{or_raise-found, find_key-found}
use backend_ssas_rrhh.Reclutamiento.Agenda.{
  clash?, interview_of, NoClash, Placed-update_key, NoClash-Placed,
}

-- An interview in another state, at the same time; one that is over keeps its state.
pub record Settled (db db' : ReclutamientoDb) : Type 0 where
  pub id : ℕ
  pub row : Entrevista
  pub next : Entrevista → Entrevista
  pub found : interview_of id db.entrevistas ≡ some row
  pub key_kept : (e : Entrevista) → entrevista_key (next e) ≡ entrevista_key e
  pub rows : db'.entrevistas ≡ update_key entrevista_key id next db.entrevistas
  pub same_interviewer : (next row).entrevistador_id ≡ row.entrevistador_id
  pub same_start : (next row).fecha_hora ≡ row.fecha_hora
  pub same_length : (next row).duracion_min ≡ row.duracion_min
  pub same_post : (next row).postulacion_id ≡ row.postulacion_id
  pub state : (is_pendiente row.estado ≡ true) ⊎ ((next row).estado ≡ row.estado)

-- A transition that is allowed starts where an interview waits, or goes nowhere.
pub transicion_entrevista-cases :
    (actual siguiente : EstadoEntrevista)
    → transicion_entrevista actual siguiente ≡ ok tt
    → (is_pendiente actual ≡ true) ⊎ (siguiente ≡ actual)
unfolding transicion_entrevista
transicion_entrevista-cases EstadoEntrevista.programada s h = inl refl
transicion_entrevista-cases EstadoEntrevista.confirmada s h = inl refl
transicion_entrevista-cases EstadoEntrevista.realizada EstadoEntrevista.programada h = ground arith
transicion_entrevista-cases EstadoEntrevista.realizada EstadoEntrevista.confirmada h = ground arith
transicion_entrevista-cases EstadoEntrevista.realizada EstadoEntrevista.realizada h = inr refl
transicion_entrevista-cases EstadoEntrevista.realizada EstadoEntrevista.cancelada h = ground arith
transicion_entrevista-cases EstadoEntrevista.cancelada EstadoEntrevista.programada h = ground arith
transicion_entrevista-cases EstadoEntrevista.cancelada EstadoEntrevista.confirmada h = ground arith
transicion_entrevista-cases EstadoEntrevista.cancelada EstadoEntrevista.realizada h = ground arith
transicion_entrevista-cases EstadoEntrevista.cancelada EstadoEntrevista.cancelada h = inr refl

abbrev missing_interview : SeleccionError
missing_interview = seleccion_error 404 "Entrevista no encontrada"

pub entrevista-found :
    (empresa id : ℕ) (db : ReclutamientoDb) {e : Entrevista}
    → entrevista empresa db id ≡ ok e
    → interview_of id db.entrevistas ≡ some e
entrevista-found empresa id db got =
    (or_raise-found entrevista_key id (λ e. application_in_company empresa db e.postulacion_id)
      db.entrevistas missing_interview got).0

pub estado_entrevista-Settled :
    (empresa id : ℕ) (estado : EstadoEntrevista) (row : Entrevista) (db db' : ReclutamientoDb)
    → estado_entrevista empresa id estado db ≡ ok (row, db')
    → Settled db db'
unfolding estado_entrevista
estado_entrevista-Settled empresa id estado row db db' returned =
    elim (Outcome-cases (entrevista empresa db id)) [
      | inr (e, failed) ↦ ground arith
      | inl (item, got) ↦
          let allowed : transicion_entrevista item.estado estado ≡ ok tt = ground arith in
          record {
            id = id;
            row = item;
            next = with_estado estado;
            found = entrevista-found empresa id db got;
            key_kept = λ e. refl;
            rows = ground arith;
            same_interviewer = refl;
            same_start = refl;
            same_length = refl;
            same_post = refl;
            state = transicion_entrevista-cases item.estado estado allowed;
          }
    ]

pub resultado_entrevista-Settled :
    (empresa now id : ℕ) (x : ResultadoRequest) (row : Entrevista) (db db' : ReclutamientoDb)
    → resultado_entrevista empresa now id x db ≡ ok (row, db')
    → Settled db db'
unfolding resultado_entrevista
resultado_entrevista-Settled empresa now id x row db db' returned =
    elim (Outcome-cases (entrevista empresa db id)) [
      | inr (e, failed) ↦ ground arith
      | inl (item, got) ↦
          let allowed : transicion_entrevista item.estado EstadoEntrevista.realizada ≡ ok tt =
            ground arith in
          record {
            id = id;
            row = item;
            next = with_resultado x;
            found = entrevista-found empresa id db got;
            key_kept = λ e. refl;
            rows = ground arith;
            same_interviewer = refl;
            same_start = refl;
            same_length = refl;
            same_post = refl;
            state = transicion_entrevista-cases item.estado EstadoEntrevista.realizada allowed;
          }
    ]

pub confirmar_entrevista-Settled :
    (now : ℕ) (codigo : String) (id : ℕ) (row : Entrevista) (db db' : ReclutamientoDb)
    → confirmar_entrevista now codigo id db ≡ ok (row, db')
    → Settled db db'
unfolding confirmar_entrevista
confirmar_entrevista-Settled now codigo id row db db' returned =
    elim (Option-cases
      (find_first (λ (p : Postulacion). str_eq p.codigo_seguimiento codigo) db.postulaciones)) [
        | inl missing ↦ ground arith
        | inr (post, tracked) ↦
            elim (Option-cases
              (find_key entrevista_key id (is_proxima now post.id (some id)) db.entrevistas)) [
                | inl missing ↦ ground arith
                | inr (item, there) ↦
                    let found =
                      find_key-found entrevista_key id (is_proxima now post.id (some id))
                        db.entrevistas there in
                    record {
                      id = id;
                      row = item;
                      next = with_estado EstadoEntrevista.confirmada;
                      found = found.0;
                      key_kept = λ e. refl;
                      rows = ground arith;
                      same_interviewer = refl;
                      same_start = refl;
                      same_length = refl;
                      same_post = refl;
                      state = inl (ground arith);
                    }
              ]
      ]

settled_clear :
    (e e' : Entrevista) (o : Option Entrevista)
    → e'.entrevistador_id ≡ e.entrevistador_id
    → e'.fecha_hora ≡ e.fecha_hora
    → e'.duracion_min ≡ e.duracion_min
    → (is_pendiente e.estado ≡ true) ⊎ (e'.estado ≡ e.estado)
    → clash? (some e) o ≡ false
    → clash? (some e') o ≡ false
settled_clear e e' none who start length state free = refl
settled_clear e e' (some b) who start length (inl waits) free = ground arith
settled_clear e e' (some b) who start length (inr same) free = rw (who, start, length, same) free

pub Settled-NoClash :
    (db db' : ReclutamientoDb) → Settled db db' → NoClash db.entrevistas → NoClash db'.entrevistas
unfolding NoClash
Settled-NoClash db db' s free = rw s.rows (
    NoClash-Placed s.id (s.next s.row) db.entrevistas _
      (Placed-update_key s.id s.next db.entrevistas s.key_kept s.found) free
      (λ j apart.
        let before = free s.id j in
        settled_clear s.row (s.next s.row) (interview_of j db.entrevistas) s.same_interviewer
          s.same_start s.same_length s.state
          (subst (λ o. clash? o (interview_of j db.entrevistas) ≡ false) s.found (ground arith))))
