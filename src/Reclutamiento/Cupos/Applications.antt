-- ===== src/Reclutamiento/Cupos/Applications.antt =====
-- The requests that add an application and hire nobody.
use backend_ssas_rrhh.Base.{
  ℕ, ◌≡◌, refl, inl, inr, Bool, false, Option, none, some, String, ◌==◌, any, find_first,
  where_rows, add_row, ok, arith, Option-cases, Outcome-cases,
}
use backend_ssas_rrhh.Reclutamiento.Rows.{Postulacion, Postulante, ReclutamientoDb, is_contratada}
use backend_ssas_rrhh.Reclutamiento.Lookup.{update_key, postulante, vacante}
use backend_ssas_rrhh.Reclutamiento.Contratacion.{postulacion_key, hired_for, banco, asociar, is_de}
use backend_ssas_rrhh.Reclutamiento.Publica.{
  CvAdjunto, DatosPostulante, Entorno, applied, upsert_postulante, get_vacante, one_or_none,
  same_ci, generate_codigo, crear_postulacion_publica,
}
use backend_ssas_rrhh.Reclutamiento.Keys.{
  find_first-nowhere, any-weaker, count-update_key, count-add_row,
}
use backend_ssas_rrhh.Reclutamiento.Cupos.{hires}

-- No vacancy changed, nobody was hired, and no application for the same vacancy was added.
pub data Unhired (db db' : ReclutamientoDb) : Type 0 where
  untouched : db'.vacantes ≡ db.vacantes → db'.postulaciones ≡ db.postulaciones → Unhired db db'
  added :
      (p : Postulacion)
      → is_contratada p.estado ≡ false
      → any (is_de p.vacante_id p.postulante_id) db.postulaciones ≡ false
      → db'.vacantes ≡ db.vacantes
      → db'.postulaciones ≡ add_row p db.postulaciones
      → Unhired db db'
  changed :
      (i : ℕ) (f : Postulacion → Postulacion) (p : Postulacion)
      → find_first (λ r. postulacion_key r == i) db.postulaciones ≡ some p
      → ((r : Postulacion) → (f r).vacante_id ≡ r.vacante_id)
      → ((r : Postulacion) → (f r).postulante_id ≡ r.postulante_id)
      → is_contratada (f p).estado ≡ is_contratada p.estado
      → db'.vacantes ≡ db.vacantes
      → db'.postulaciones ≡ update_key postulacion_key i f db.postulaciones
      → Unhired db db'

module _ (db db' : ReclutamientoDb) where
  pub Unhired-vacancies : Unhired db db' → db'.vacantes ≡ db.vacantes
  Unhired-vacancies (untouched rows posts) = rows
  Unhired-vacancies (added p fresh single rows posts) = rows
  Unhired-vacancies (changed i f p found vacancy applicant state rows posts) = rows

  pub Unhired-hires :
      (id : ℕ) → Unhired db db' → hires id db'.postulaciones ≡ hires id db.postulaciones
  Unhired-hires id (untouched rows posts) = rw posts refl
  Unhired-hires id (added p fresh single rows posts) =
      let counted = count-add_row (hired_for id) p db.postulaciones in rw posts (ground arith)
  Unhired-hires id (changed i f p found vacancy applicant state rows posts) = rw posts (
      count-update_key postulacion_key i f (hired_for id) db.postulaciones found
        (rw (vacancy p, state) refl))

pub banco-Unhired :
    (empresa id : ℕ) (incluir : Bool) (row : Postulante) (db db' : ReclutamientoDb)
    → banco empresa id incluir db ≡ ok (row, db')
    → Unhired db db'
unfolding banco
banco-Unhired empresa id incluir row db db' returned = untouched (ground arith) (ground arith)

pub asociar-Unhired :
    (empresa now new_id : ℕ) (codigo : String) (id vacante_id : ℕ) (row : Postulacion)
    (db db' : ReclutamientoDb)
    → asociar empresa now new_id codigo id vacante_id db ≡ ok (row, db')
    → Unhired db db'
unfolding asociar
asociar-Unhired empresa now new_id codigo id vacante_id row db db' returned =
    elim (Outcome-cases (postulante empresa db id)) [
      | inr (e, failed) ↦ ground arith
      | inl (c, candidate) ↦ elim (Outcome-cases (vacante empresa db vacante_id)) [
        | inr (e, failed) ↦ ground arith
        | inl (v, vacancy) ↦ elim (Option-cases (find_first (is_de v.id c.id) db.postulaciones)) [
          | inr (p, there) ↦ untouched (ground arith) (ground arith)
          | inl missing ↦
              let single = find_first-nowhere (is_de v.id c.id) db.postulaciones missing in
              added row (ground arith) (ground arith) (ground arith) (ground arith)
        ]
      ]
    ]

-- The applicant that the request stores has no application for the vacancy.
upserted_single :
    (new_id empresa : ℕ) (x : DatosPostulante) (cv_url : String) (found : Option Postulante)
    (vacante_id : ℕ) (db : ReclutamientoDb)
    → any (λ (p : Postulacion). p.postulante_id == new_id) db.postulaciones ≡ false
    → applied vacante_id found db ≡ false
    → any
        (is_de vacante_id (upsert_postulante new_id empresa x cv_url found db.postulantes).0)
        db.postulaciones
      ≡ false
upserted_single new_id empresa x cv_url none vacante_id db fresh free =
    any-weaker (is_de vacante_id new_id) (λ (p : Postulacion). p.postulante_id == new_id)
      (λ p h. ground arith) db.postulaciones fresh
upserted_single new_id empresa x cv_url (some c) vacante_id db fresh free = free

pub crear_postulacion_publica-Unhired :
    (lower suffix : String → String) (save_cv : CvAdjunto → String → String) (env : Entorno)
    (x : DatosPostulante) (cv : CvAdjunto) (row : Postulacion) (db db' : ReclutamientoDb)
    → any (λ (p : Postulacion). p.postulante_id == env.postulante_id) db.postulaciones ≡ false
    → crear_postulacion_publica lower suffix save_cv env x cv db ≡ ok (row, db')
    → Unhired db db'
unfolding crear_postulacion_publica
crear_postulacion_publica-Unhired lower suffix save_cv env x cv row db db' fresh returned =
    elim (Option-cases (get_vacante env.now db x.vacante_id)) [
      | inl missing ↦ ground arith
      | inr (v, open_row) ↦
          elim (Outcome-cases
            (one_or_none (where_rows (same_ci lower v.empresa_id x.ci) db.postulantes))) [
              | inr (e, failed) ↦ ground arith
              | inl (found, query) ↦ elim (Outcome-cases (generate_codigo env.draw db)) [
                | inr (e, failed) ↦ ground arith
                | inl (codigo, drawn) ↦
                    let free : applied v.id found db ≡ false = ground arith in
                    let single =
                      upserted_single env.postulante_id v.empresa_id x (save_cv cv codigo) found
                        v.id db fresh free in
                    added row (ground arith) (ground arith) (ground arith) (ground arith)
              ]
            ]
    ]
