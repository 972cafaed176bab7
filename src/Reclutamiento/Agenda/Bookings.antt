-- ===== src/Reclutamiento/Agenda/Bookings.antt =====
-- A time that is set was checked against the other interviews of the interviewer.
use backend_ssas_rrhh.Base.{
  ℕ, ◌≡◌, ◌≤◌, refl, inl, inr, true, false, none, some, String, List, ◌==◌, any, find_first,
  add_row, ok, arith, Option-cases, Outcome-cases, find_first-passes,
}
use backend_ssas_rrhh.Reclutamiento.Rows.{Entrevista, ReclutamientoDb, is_pendiente}
use backend_ssas_rrhh.Reclutamiento.Lookup.{update_key, entrevista}
use backend_ssas_rrhh.Reclutamiento.Entrevistas.{
  EntrevistaRequest, entrevista_key, conflicts, with_datos, new_entrevista, sin_conflicto,
  check_entrevista, crear_entrevista, editar_entrevista,
}
use backend_ssas_rrhh.Reclutamiento.Keys.{any-find_first}
use backend_ssas_rrhh.Reclutamiento.Agenda.{
  clash, clash?, interview_of, NoClash, Placed-update_key, Placed-add_row, NoClash-Placed,
}
use backend_ssas_rrhh.Reclutamiento.Agenda.Edits.{entrevista-found}

-- An interview of that time clashes with no row that the check passed over.
module _ (x : EntrevistaRequest) (long : 1 ≤ x.duracion_min) (e : Entrevista) where
  clear_of_all :
      (b : Entrevista)
      → conflicts x.entrevistador_id x.fecha_hora x.duracion_min none b ≡ false
      → clash (with_datos x e) b ≡ false
  clear_of_all b free = ground arith

  clear_of_others :
      (i : ℕ) (b : Entrevista)
      → (b.id == i) ≡ false
      → conflicts x.entrevistador_id x.fecha_hora x.duracion_min (some i) b ≡ false
      → clash (with_datos x e) b ≡ false
  clear_of_others i b other free = ground arith

  checked_all :
      (rows : List Entrevista) (j : ℕ)
      → any (conflicts x.entrevistador_id x.fecha_hora x.duracion_min none) rows ≡ false
      → clash? (some (with_datos x e)) (interview_of j rows) ≡ false
  checked_all rows j free = elim (Option-cases (interview_of j rows)) [
    | inl missing ↦ rw missing refl
    | inr (b, found) ↦ rw found (
        clear_of_all b (
          any-find_first (λ r. entrevista_key r == j)
            (conflicts x.entrevistador_id x.fecha_hora x.duracion_min none) rows free found))
  ]

  checked_others :
      (i : ℕ) (rows : List Entrevista) (j : ℕ)
      → (i == j) ≡ false
      → any (conflicts x.entrevistador_id x.fecha_hora x.duracion_min (some i)) rows ≡ false
      → clash? (some (with_datos x e)) (interview_of j rows) ≡ false
  checked_others i rows j apart free = elim (Option-cases (interview_of j rows)) [
    | inl missing ↦ rw missing refl
    | inr (b, found) ↦
        let key = find_first-passes (λ r. entrevista_key r == j) rows found in
        let other : (b.id == i) ≡ false = ground arith in
        rw found (
          clear_of_others i b other (
            any-find_first (λ r. entrevista_key r == j)
              (conflicts x.entrevistador_id x.fecha_hora x.duracion_min (some i)) rows free found))
  ]

pub crear_entrevista-NoClash :
    (permission_codes : ℕ → ℕ → List String) (empresa now new_id : ℕ) (x : EntrevistaRequest)
    (row : Entrevista) (db db' : ReclutamientoDb)
    → 1 ≤ x.duracion_min
    → find_first (λ e. entrevista_key e == new_id) db.entrevistas ≡ none
    → crear_entrevista permission_codes empresa now new_id x db ≡ ok (row, db')
    → NoClash db.entrevistas
    → NoClash db'.entrevistas
unfolding crear_entrevista sin_conflicto
crear_entrevista-NoClash permission_codes empresa now new_id x row db db' long fresh returned free =
    let e = new_entrevista new_id x in
    let rows : db'.entrevistas ≡ add_row e db.entrevistas = ground arith in
    let passed : any (conflicts x.entrevistador_id x.fecha_hora x.duracion_min none) db.entrevistas
        ≡ false =
      ground arith in
    rw rows (
      NoClash-Placed new_id e db.entrevistas (add_row e db.entrevistas)
        (Placed-add_row e db.entrevistas fresh) free
        (λ j apart. checked_all x long e db.entrevistas j passed))

-- An edit of an interview that waits, which was found.
pub record Edited (id : ℕ) (x : EntrevistaRequest) (e : Entrevista) (db db' : ReclutamientoDb)
    : Type 0 where
  pub found : interview_of id db.entrevistas ≡ some e
  pub waits : is_pendiente e.estado ≡ true
  pub passed :
      any (conflicts x.entrevistador_id x.fecha_hora x.duracion_min (some id)) db.entrevistas
      ≡ false
  pub rows : db'.entrevistas ≡ update_key entrevista_key id (with_datos x) db.entrevistas

pub editar_entrevista-Edited :
    (permission_codes : ℕ → ℕ → List String) (empresa now id : ℕ) (x : EntrevistaRequest)
    (row : Entrevista) (db db' : ReclutamientoDb)
    → editar_entrevista permission_codes empresa now id x db ≡ ok (row, db')
    → (e : Entrevista) × Edited id x e db db'
unfolding editar_entrevista sin_conflicto
editar_entrevista-Edited permission_codes empresa now id x row db db' returned =
    elim (Outcome-cases (check_entrevista permission_codes empresa now x db)) [
      | inr (e, failed) ↦ ground arith
      | inl (post, asked) ↦ elim (Outcome-cases (entrevista empresa db id)) [
        | inr (e, failed) ↦ ground arith
        | inl (item, got) ↦ (
          item,
          record {
            found = entrevista-found empresa id db got;
            waits = ground arith;
            passed = ground arith;
            rows = ground arith;
          },
        )
      ]
    ]

pub Edited-NoClash :
    (id : ℕ) (x : EntrevistaRequest) (e : Entrevista) (db db' : ReclutamientoDb)
    → 1 ≤ x.duracion_min
    → Edited id x e db db'
    → NoClash db.entrevistas
    → NoClash db'.entrevistas
Edited-NoClash id x e db db' long edit free = rw edit.rows (
    NoClash-Placed id (with_datos x e) db.entrevistas
      (update_key entrevista_key id (with_datos x) db.entrevistas)
      (Placed-update_key id (with_datos x) db.entrevistas (λ r. refl) edit.found) free
      (λ j apart. checked_others x long e id db.entrevistas j apart edit.passed))
