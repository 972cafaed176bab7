-- ===== src/Reclutamiento/Cupos/Stages.antt =====
-- The requests about the stage and the marks of an application, which hire nobody.
use backend_ssas_rrhh.Base.{
  ℕ, ◌≡◌, refl, sym, inl, inr, false, Option, none, some, String, List, ok, arith, Option-cases,
  Outcome-cases,
}
use backend_ssas_rrhh.Nomina.Rows.{CurrentUser}
use backend_ssas_rrhh.Reclutamiento.Rows.{
  Postulacion, Evaluacion, EtapaReclutamiento, ReclutamientoDb, is_contratada,
}
use backend_ssas_rrhh.Reclutamiento.Lookup.{
  find_key, in_company, first_stage, target_empresa, evaluacion,
}
use backend_ssas_rrhh.Reclutamiento.Evaluaciones.{
  EvaluacionRequest, named_evaluador, guardar_evaluacion, crear_evaluacion, editar_evaluacion,
}
use backend_ssas_rrhh.Reclutamiento.Contratacion.{postulacion_key}
use backend_ssas_rrhh.Reclutamiento.Tablero.{
  movible_in, with_etapa, with_rechazo, with_puntaje, cambiar_etapa, rechazar, registrar_puntaje,
}
use backend_ssas_rrhh.Reclutamiento.Keys.{find_key-found}
use backend_ssas_rrhh.Reclutamiento.Cupos.Applications.{Unhired, untouched, changed}

pub cambiar_etapa-Unhired :
    (user : CurrentUser) (empresa_id : Option ℕ) (now id etapa_id : ℕ) (row : Postulacion)
    (db db' : ReclutamientoDb)
    → cambiar_etapa user empresa_id now id etapa_id db ≡ ok (row, db')
    → Unhired db db'
unfolding cambiar_etapa
cambiar_etapa-Unhired user empresa_id now id etapa_id row db db' returned =
    elim (Outcome-cases (target_empresa user empresa_id)) [
      | inr (e, failed) ↦ ground arith
      | inl (empresa, target) ↦
          elim (Option-cases
            (find_key postulacion_key id (movible_in empresa db) db.postulaciones)) [
              | inl missing ↦ ground arith
              | inr (p, found) ↦
                  let passed =
                    find_key-found postulacion_key id (movible_in empresa db) db.postulaciones
                      found in
                  let before : is_contratada p.estado ≡ false = ground arith in
                  changed id (with_etapa etapa_id now) p passed.0 (λ r. refl) (λ r. refl)
                    (sym before) (ground arith) (ground arith)
            ]
    ]

pub rechazar-Unhired :
    (user : CurrentUser) (empresa_id : Option ℕ) (now id motivo_id : ℕ) (row : Postulacion)
    (db db' : ReclutamientoDb)
    → rechazar user empresa_id now id motivo_id db ≡ ok (row, db')
    → Unhired db db'
unfolding rechazar
rechazar-Unhired user empresa_id now id motivo_id row db db' returned =
    elim (Outcome-cases (target_empresa user empresa_id)) [
      | inr (e, failed) ↦ ground arith
      | inl (empresa, target) ↦
          elim (Option-cases
            (first_stage empresa (λ (e : EtapaReclutamiento). e.es_rechazado) db)) [
              | inl missing ↦ ground arith
              | inr (etapa, stage) ↦
                  elim (Option-cases
                    (find_key postulacion_key id (movible_in empresa db) db.postulaciones)) [
                      | inl missing ↦ ground arith
                      | inr (p, found) ↦
                          let passed =
                            find_key-found postulacion_key id (movible_in empresa db)
                              db.postulaciones found in
                          let before : is_contratada p.estado ≡ false = ground arith in
                          changed id (with_rechazo etapa.id motivo_id now) p passed.0 (λ r. refl)
                            (λ r. refl) (sym before) (ground arith) (ground arith)
                    ]
            ]
    ]

pub registrar_puntaje-Unhired :
    (user : CurrentUser) (empresa_id : Option ℕ) (now id puntaje : ℕ) (row : Postulacion)
    (db db' : ReclutamientoDb)
    → registrar_puntaje user empresa_id now id puntaje db ≡ ok (row, db')
    → Unhired db db'
unfolding registrar_puntaje
registrar_puntaje-Unhired user empresa_id now id puntaje row db db' returned =
    elim (Outcome-cases (target_empresa user empresa_id)) [
      | inr (e, failed) ↦ ground arith
      | inl (empresa, target) ↦
          elim (Option-cases
            (find_key postulacion_key id (in_company empresa db) db.postulaciones)) [
              | inl missing ↦ ground arith
              | inr (p, found) ↦
                  let passed =
                    find_key-found postulacion_key id (in_company empresa db) db.postulaciones
                      found in
                  changed id (with_puntaje puntaje now) p passed.0 (λ r. refl) (λ r. refl) refl
                    (ground arith) (ground arith)
            ]
    ]

guardar_evaluacion-Unhired :
    (empresa new_id post_id : ℕ) (x : EvaluacionRequest) (actor_id : ℕ) (evaluacion_id : Option ℕ)
    (row : Evaluacion) (db db' : ReclutamientoDb)
    → guardar_evaluacion empresa new_id post_id x actor_id evaluacion_id db ≡ ok (row, db')
    → Unhired db db'
unfolding guardar_evaluacion
guardar_evaluacion-Unhired empresa new_id post_id x actor_id none row db db' returned =
    untouched (ground arith) (ground arith)
guardar_evaluacion-Unhired empresa new_id post_id x actor_id (some id) row db db' returned =
    untouched (ground arith) (ground arith)

pub crear_evaluacion-Unhired :
    (permission_codes : ℕ → ℕ → List String) (user : CurrentUser) (empresa_id : Option ℕ)
    (new_id id : ℕ) (x : EvaluacionRequest) (row : Evaluacion) (db db' : ReclutamientoDb)
    → crear_evaluacion permission_codes user empresa_id new_id id x db ≡ ok (row, db')
    → Unhired db db'
unfolding crear_evaluacion
crear_evaluacion-Unhired permission_codes user empresa_id new_id id x row db db' returned =
    elim (Outcome-cases (target_empresa user empresa_id)) [
      | inr (e, failed) ↦ ground arith
      | inl (empresa, target) ↦
          guardar_evaluacion-Unhired empresa new_id id x (named_evaluador user x) none row db db'
            (ground arith)
    ]

pub editar_evaluacion-Unhired :
    (user : CurrentUser) (empresa_id : Option ℕ) (id : ℕ) (x : EvaluacionRequest) (row : Evaluacion)
    (db db' : ReclutamientoDb)
    → editar_evaluacion user empresa_id id x db ≡ ok (row, db')
    → Unhired db db'
unfolding editar_evaluacion
editar_evaluacion-Unhired user empresa_id id x row db db' returned =
    elim (Outcome-cases (target_empresa user empresa_id)) [
      | inr (e, failed) ↦ ground arith
      | inl (empresa, target) ↦ elim (Outcome-cases (evaluacion empresa db id)) [
        | inr (e, failed) ↦ ground arith
        | inl (original, found) ↦
            guardar_evaluacion-Unhired empresa id original.postulacion_id x user.id (some id) row db
              db' (ground arith)
      ]
    ]
