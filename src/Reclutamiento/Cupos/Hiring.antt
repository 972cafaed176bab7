-- ===== src/Reclutamiento/Cupos/Hiring.antt =====
-- What `contratar` does to the tables when it returns.
use backend_ssas_rrhh.Base.{
  ℕ, ◌+◌, ◌≡◌, ◌<◌, refl, sym, inl, inr, ◌⊎◌, true, false, ◌&&◌, some, String, ◌==◌, find_first,
  add_row, ok, arith, Option-cases, Outcome-cases, Bool-cases, ==_iff,
}
use mathlib.Core.Path.{subst}
use backend_ssas_rrhh.Reclutamiento.Rows.{
  Vacante, Postulacion, Empleado, EtapaReclutamiento, ReclutamientoDb, is_activa, is_contratada,
}
use backend_ssas_rrhh.Reclutamiento.Lookup.{
  SeleccionError, seleccion_error, update_key, in_company, applicant_in_company, first_stage,
  postulacion, vacante, postulante,
}
use backend_ssas_rrhh.Reclutamiento.Contratacion.{
  ContratarRequest, vacante_key, postulacion_key, hired_for, no_contrata, with_empleado,
  close_if_full, ya_contratada, nueva_contratacion, contratar,
}
use backend_ssas_rrhh.Reclutamiento.Keys.{
  find_first-update_key, find_first-update_key_other, count-update_key, count-gains, or_raise-found,
}
use backend_ssas_rrhh.Reclutamiento.Cupos.{Covered, CoveredRow, AllCovered, vacancy_of, hires}

-- A contract of the application `post` for the vacancy `v`.
pub record Hire (now post_id : ℕ) (post : Postulacion) (v : Vacante) (row : Empleado)
    (db db' : ReclutamientoDb) : Type 0 where
  pub application : find_first (λ p. postulacion_key p == post_id) db.postulaciones ≡ some post
  pub vacancy : vacancy_of v.id db.vacantes ≡ some v
  pub for_vacancy : post.vacante_id ≡ v.id
  pub active : is_activa post.estado ≡ true
  pub hiring : no_contrata v.estado ≡ false
  pub room : hires v.id db.postulaciones < v.cantidad_vacantes
  pub etapa_id : ℕ
  pub posts :
      db'.postulaciones
      ≡ update_key postulacion_key post_id (with_empleado row.id etapa_id now) db.postulaciones
  pub rows :
      db'.vacantes
      ≡ update_key vacante_key v.id (close_if_full now (hires v.id db.postulaciones)) db.vacantes
  pub employees : db'.empleados ≡ add_row row db.empleados

abbrev pub post_missing : SeleccionError
post_missing = seleccion_error 404 "Postulación no encontrada"

abbrev pub v_missing : SeleccionError
v_missing = seleccion_error 404 "Vacante no encontrada"

pub nueva_contratacion-Hire :
    (lower casefold : String → String) (empresa now new_id post_id : ℕ) (post : Postulacion)
    (v : Vacante) (x : ContratarRequest) (row : Empleado) (db db' : ReclutamientoDb)
    → postulacion empresa db post_id ≡ ok post
    → vacante empresa db post.vacante_id ≡ ok v
    → nueva_contratacion lower casefold empresa now new_id post v x db ≡ ok (row, db')
    → Hire now post_id post v row db db'
unfolding nueva_contratacion
nueva_contratacion-Hire lower casefold empresa now new_id post_id post v x row db db' got_post got_v
      returned =
    elim (Outcome-cases (postulante empresa db post.postulante_id)) [
      | inr (e, failed) ↦ ground arith
      | inl (c, candidate) ↦
          let post_row =
            or_raise-found postulacion_key post_id
              (λ p. in_company empresa db p && applicant_in_company empresa db p) db.postulaciones
              post_missing got_post in
          let v_row =
            or_raise-found vacante_key post.vacante_id (λ w. w.empresa_id == empresa) db.vacantes
              v_missing got_v in
          elim (Option-cases
            (first_stage empresa (λ (e : EtapaReclutamiento). e.es_contratado) db)) [
              | inl missing ↦ ground arith
              | inr (etapa, stage) ↦ record {
                application = post_row.0;
                vacancy = subst (λ i. vacancy_of i db.vacantes ≡ some v) (sym v_row.1) v_row.0;
                for_vacancy = sym v_row.1;
                active = ground arith;
                hiring = ground arith;
                room = ground arith;
                etapa_id = etapa.id;
                posts = rw (sym post_row.1) (ground arith);
                rows = ground arith;
                employees = ground arith;
              }
            ]
    ]

-- The hiring request keeps the database, for an application that was hired before, or hires.
pub contratar-Hire :
    (lower casefold : String → String) (empresa now new_id post_id : ℕ) (x : ContratarRequest)
    (row : Empleado) (db db' : ReclutamientoDb)
    → contratar lower casefold empresa now new_id post_id x db ≡ ok (row, db')
    → (db' ≡ db) ⊎ ((post : Postulacion) × (v : Vacante) × Hire now post_id post v row db db')
unfolding contratar ya_contratada
contratar-Hire lower casefold empresa now new_id post_id x row db db' returned =
    elim (Outcome-cases (postulacion empresa db post_id)) [
      | inr (e, failed) ↦ ground arith
      | inl (post, got_post) ↦ elim (Outcome-cases (vacante empresa db post.vacante_id)) [
        | inr (e, failed) ↦ ground arith
        | inl (v, got_v) ↦ elim (Bool-cases (is_contratada post.estado)) [
          | inr waiting ↦ inr (
            post,
            v,
            nueva_contratacion-Hire lower casefold empresa now new_id post_id post v x row db db'
                got_post got_v (ground arith),
          )
          | inl done ↦ elim (Option-cases post.empleado_id) [
            | inr (empleado_id, there) ↦ inl (ground arith)
            | inl missing ↦ inr (
              post,
              v,
              nueva_contratacion-Hire lower casefold empresa now new_id post_id post v x row db db'
                  got_post got_v (ground arith),
            )
          ]
        ]
      ]
    ]

-- One more person is hired for the vacancy, and for no other one.
pub Hire-hires :
    (now post_id : ℕ) (post : Postulacion) (v : Vacante) (row : Empleado) (db db' : ReclutamientoDb)
    → Hire now post_id post v row db db'
    → hires v.id db'.postulaciones ≡ hires v.id db.postulaciones + 1
Hire-hires now post_id post v row db db' h =
    let same : (post.vacante_id == v.id) ≡ true =
      grind (arith, ==_iff post.vacante_id v.id, h.for_vacancy) in
    let before : hired_for v.id post ≡ false = ground (arith, h.active) in
    rw h.posts (
      count-gains postulacion_key post_id (with_empleado row.id h.etapa_id now) (hired_for v.id)
        db.postulaciones h.application before (rw same refl))

pub Hire-hires_other :
    (now post_id : ℕ) (post : Postulacion) (v : Vacante) (row : Empleado) (db db' : ReclutamientoDb)
    (id : ℕ)
    → Hire now post_id post v row db db'
    → (v.id == id) ≡ false
    → hires id db'.postulaciones ≡ hires id db.postulaciones
Hire-hires_other now post_id post v row db db' id h apart =
    let other : (post.vacante_id == id) ≡ false = rw h.for_vacancy apart in
    rw h.posts (
      count-update_key postulacion_key post_id (with_empleado row.id h.etapa_id now) (hired_for id)
        db.postulaciones h.application (rw other refl))

close-key : (now hired : ℕ) (w : Vacante) → vacante_key (close_if_full now hired w) ≡ vacante_key w
close-key now hired w = ground arith

pub Hire-vacancy :
    (now post_id : ℕ) (post : Postulacion) (v : Vacante) (row : Empleado) (db db' : ReclutamientoDb)
    → Hire now post_id post v row db db'
    → vacancy_of v.id db'.vacantes ≡ some (close_if_full now (hires v.id db.postulaciones) v)
Hire-vacancy now post_id post v row db db' h =
    rw
      (
        h.rows,
        find_first-update_key vacante_key v.id (close_if_full now (hires v.id db.postulaciones))
            (close-key now (hires v.id db.postulaciones)) db.vacantes,
      )
      (rw h.vacancy refl)

pub Hire-vacancy_other :
    (now post_id : ℕ) (post : Postulacion) (v : Vacante) (row : Empleado) (db db' : ReclutamientoDb)
    (id : ℕ)
    → Hire now post_id post v row db db'
    → (v.id == id) ≡ false
    → vacancy_of id db'.vacantes ≡ vacancy_of id db.vacantes
Hire-vacancy_other now post_id post v row db db' id h apart = rw h.rows (
    find_first-update_key_other vacante_key v.id (close_if_full now (hires v.id db.postulaciones))
      (close-key now (hires v.id db.postulaciones)) id db.vacantes apart)

close-Covered :
    (now hired : ℕ) (v : Vacante)
    → hired < v.cantidad_vacantes
    → no_contrata v.estado ≡ false
    → Covered (close_if_full now hired v) (hired + 1)
close-Covered now hired v room hiring = record {
  place = ground arith;
  within = ground arith;
  free = ground arith;
  draft = ground arith;
}

pub Hire-AllCovered :
    (now post_id : ℕ) (post : Postulacion) (v : Vacante) (row : Empleado) (db db' : ReclutamientoDb)
    → Hire now post_id post v row db db'
    → AllCovered db.vacantes db.postulaciones
    → AllCovered db'.vacantes db'.postulaciones
unfolding AllCovered
Hire-AllCovered now post_id post v row db db' h covered id = elim (Bool-cases (v.id == id)) [
  | inl same ↦
      let same_id : v.id ≡ id = grind (arith, ==_iff v.id id) in
      let here : CoveredRow (vacancy_of v.id db'.vacantes) (hires v.id db'.postulaciones) =
        rw
          (Hire-vacancy now post_id post v row db db' h, Hire-hires now post_id post v row db db' h)
          (close-Covered now (hires v.id db.postulaciones) v h.room h.hiring) in
      subst (λ i. CoveredRow (vacancy_of i db'.vacantes) (hires i db'.postulaciones)) same_id here
  | inr apart ↦
      rw
        (
          Hire-vacancy_other now post_id post v row db db' id h apart,
          Hire-hires_other now post_id post v row db db' id h apart,
        )
        (covered id)
]
