-- ===== src/Reclutamiento/Cupos/Vacancies.antt =====
-- The requests about vacancies keep every vacancy covered by the applications for it.
use backend_ssas_rrhh.Base.{
  ℕ, ◌≡◌, ◌≤◌, refl, ap, ◌∙◌, [], ◌∷◌, inl, inr, true, false, not, some, List, ◌==◌, any, add_row,
  where_rows, ok, arith, Option-cases, Outcome-cases,
}
use mathlib.Core.Path.{subst}
use backend_ssas_rrhh.Reclutamiento.Rows.{
  EstadoVacante, Vacante, Postulacion, ReclutamientoDb, is_borrador, is_cerrada,
}
use backend_ssas_rrhh.Reclutamiento.Lookup.{find_key, update_key}
use backend_ssas_rrhh.Reclutamiento.Contratacion.{vacante_key}
use backend_ssas_rrhh.Reclutamiento.Keys.{find_key-found}
use backend_ssas_rrhh.Reclutamiento.Vacantes.{
  ActualizarVacanteRequest, CrearVacanteRequest, obtener, crear, actualizar, eliminar, with_values,
  get_or, check_references, new_vacante,
}
use backend_ssas_rrhh.Reclutamiento.Publicacion.{
  publicar, reanudar, pausar, cerrar, with_publicacion, with_estado_vacante,
}
use backend_ssas_rrhh.Reclutamiento.Requests.{positive_if_sent}
use backend_ssas_rrhh.Reclutamiento.Cupos.{
  Covered, CoveredRow, AllCovered, vacancy_of, hires, AllCovered-add_row, AllCovered-delete,
  AllCovered-update_key,
}

-- A request changed one vacancy, which the change leaves covered by the people hired, and no application.
pub record Change (db db' : ReclutamientoDb) : Type 0 where
  pub id : ℕ
  pub row : Vacante
  pub next : Vacante → Vacante
  pub found : vacancy_of id db.vacantes ≡ some row
  pub key_kept : (v : Vacante) → vacante_key (next v) ≡ vacante_key v
  pub rows : db'.vacantes ≡ update_key vacante_key id next db.vacantes
  pub same_posts : db'.postulaciones ≡ db.postulaciones
  pub covers : (hired : ℕ) → Covered row hired → Covered (next row) hired

pub Change-AllCovered :
    (db db' : ReclutamientoDb)
    → Change db db'
    → AllCovered db.vacantes db.postulaciones
    → AllCovered db'.vacantes db'.postulaciones
unfolding AllCovered
Change-AllCovered db db' c covered =
    let old = subst (λ o. CoveredRow o (hires c.id db.postulaciones)) c.found (covered c.id) in
    rw (c.rows, c.same_posts)
      (AllCovered-update_key c.id c.next db.vacantes db.postulaciones c.key_kept covered
        (rw c.found (c.covers _ old)))

obtener-found :
    (id empresa : ℕ) (db : ReclutamientoDb) {v : Vacante}
    → obtener id empresa db ≡ ok v
    → vacancy_of id db.vacantes ≡ some v
unfolding obtener
obtener-found id empresa db {v} got =
    elim (Option-cases (find_key vacante_key id (λ w. w.empresa_id == empresa) db.vacantes)) [
      | inl missing ↦ ground arith
      | inr (w, here) ↦
          let found =
            find_key-found vacante_key id (λ x. x.empresa_id == empresa) db.vacantes here in
          let same : w ≡ v = ground arith in found.0 ∙ ap some same
    ]

nobody_hired :
    (id : ℕ) (ps : List Postulacion)
    → any (λ (p : Postulacion). p.vacante_id == id) ps ≡ false
    → hires id ps ≡ 0
nobody_hired id [] fresh = refl
nobody_hired id (p ∷ ps) fresh = ground (arith, nobody_hired id ps)

-- A vacancy that was not closed moves to another state than a draft.
moved :
    (id empresa : ℕ) (v : Vacante) (next : Vacante → Vacante) (db db' : ReclutamientoDb)
    → obtener id empresa db ≡ ok v
    → is_cerrada v.estado ≡ false
    → is_borrador (next v).estado ≡ false
    → (next v).cantidad_vacantes ≡ v.cantidad_vacantes
    → ((w : Vacante) → vacante_key (next w) ≡ vacante_key w)
    → db'.vacantes ≡ update_key vacante_key id next db.vacantes
    → db'.postulaciones ≡ db.postulaciones
    → Change db db'
moved id empresa v next db db' got unclosed no_draft places kept rows posts = record {
  id = id;
  row = v;
  next = next;
  found = obtener-found id empresa db got;
  key_kept = kept;
  rows = rows;
  same_posts = posts;
  covers = λ hired c. record {
    place = rw places c.place;
    within = rw places c.within;
    free = ground (arith, c.free);
    draft = inl no_draft;
  };
}

pub publicar-Change :
    (now id empresa : ℕ) (row : Vacante) (db db' : ReclutamientoDb)
    → publicar now id empresa db ≡ ok (row, db')
    → Change db db'
unfolding publicar
publicar-Change now id empresa row db db' returned = elim (Outcome-cases (obtener id empresa db)) [
  | inr (e, failed) ↦ ground arith
  | inl (v, got) ↦
      moved id empresa v (with_publicacion (get_or v.fecha_publicacion now)) db db' got
        (ground arith) refl refl (λ w. refl) (ground arith) (ground arith)
]

pub reanudar-Change :
    (now id empresa : ℕ) (row : Vacante) (db db' : ReclutamientoDb)
    → reanudar now id empresa db ≡ ok (row, db')
    → Change db db'
unfolding reanudar
reanudar-Change now id empresa row db db' returned = elim (Outcome-cases (obtener id empresa db)) [
  | inr (e, failed) ↦ ground arith
  | inl (v, got) ↦
      moved id empresa v (with_publicacion (get_or v.fecha_publicacion now)) db db' got
        (ground arith) refl refl (λ w. refl) (ground arith) (ground arith)
]

pub pausar-Change :
    (id empresa : ℕ) (row : Vacante) (db db' : ReclutamientoDb)
    → pausar id empresa db ≡ ok (row, db')
    → Change db db'
unfolding pausar
pausar-Change id empresa row db db' returned = elim (Outcome-cases (obtener id empresa db)) [
  | inr (e, failed) ↦ ground arith
  | inl (v, got) ↦
      moved id empresa v (with_estado_vacante EstadoVacante.pausada) db db' got (ground arith) refl
        refl (λ w. refl) (ground arith) (ground arith)
]

pub cerrar-Change :
    (id empresa : ℕ) (row : Vacante) (db db' : ReclutamientoDb)
    → cerrar id empresa db ≡ ok (row, db')
    → Change db db'
unfolding cerrar
cerrar-Change id empresa row db db' returned = elim (Outcome-cases (obtener id empresa db)) [
  | inr (e, failed) ↦ ground arith
  | inl (v, got) ↦
      moved id empresa v (with_estado_vacante EstadoVacante.cerrada) db db' got (ground arith) refl
        refl (λ w. refl) (ground arith) (ground arith)
]

pub actualizar-Change :
    (id empresa : ℕ) (x : ActualizarVacanteRequest) (row : Vacante) (db db' : ReclutamientoDb)
    → positive_if_sent x.cantidad_vacantes ≡ true
    → actualizar id empresa x db ≡ ok (row, db')
    → Change db db'
unfolding actualizar check_references
actualizar-Change id empresa x row db db' positive returned =
    elim (Outcome-cases (obtener id empresa db)) [
      | inr (e, failed) ↦ ground arith
      | inl (v, got) ↦
          let draft : is_borrador v.estado ≡ true = ground arith in
          record {
            id = id;
            row = v;
            next = with_values x;
            found = obtener-found id empresa db got;
            key_kept = λ w. refl;
            rows = ground arith;
            same_posts = ground arith;
            covers = λ hired c.
                let nobody : hired ≡ 0 = ground (arith, c.draft) in
                let some_place : 1 ≤ get_or x.cantidad_vacantes v.cantidad_vacantes =
                  ground (arith, c.place) in
                record {
                  place = some_place;
                  within = omega (arith, nobody);
                  free = inl (omega (arith, nobody, some_place));
                  draft = inr nobody;
                };
          }
    ]

pub crear-AllCovered :
    (empresa responsable_id new_id : ℕ) (x : CrearVacanteRequest) (row : Vacante)
    (db db' : ReclutamientoDb)
    → 1 ≤ x.cantidad_vacantes
    → any (λ (p : Postulacion). p.vacante_id == new_id) db.postulaciones ≡ false
    → crear empresa responsable_id new_id x db ≡ ok (row, db')
    → AllCovered db.vacantes db.postulaciones
    → AllCovered db'.vacantes db'.postulaciones
unfolding crear check_references
crear-AllCovered empresa responsable_id new_id x row db db' place fresh returned covered =
    let v = new_vacante new_id empresa responsable_id x in
    let rows : db'.vacantes ≡ add_row v db.vacantes = ground arith in
    let posts : db'.postulaciones ≡ db.postulaciones = ground arith in
    rw (rows, posts)
      (AllCovered-add_row v db.vacantes db.postulaciones place
        (nobody_hired new_id db.postulaciones fresh) covered)

pub eliminar-AllCovered :
    (id empresa : ℕ) (db db' : ReclutamientoDb)
    → eliminar id empresa db ≡ ok (tt, db')
    → AllCovered db.vacantes db.postulaciones
    → AllCovered db'.vacantes db'.postulaciones
unfolding eliminar
eliminar-AllCovered id empresa db db' returned covered =
    let rows : db'.vacantes ≡ where_rows (λ (v : Vacante). not (v.id == id)) db.vacantes =
      ground arith in
    let posts : db'.postulaciones ≡ db.postulaciones = ground arith in
    rw (rows, posts) (AllCovered-delete id db.vacantes db.postulaciones covered)
