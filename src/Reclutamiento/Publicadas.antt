-- ===== src/Reclutamiento/Publicadas.antt =====
-- The plan of a company limits its published vacancies.
use backend_ssas_rrhh.Base.{
  ℕ, ◌+◌, ◌≡◌, ◌≤◌, ◌<◌, refl, inl, inr, Bool, false, ◌&&◌, Option, List, [], ◌∷◌, map, ◌==◌,
  str_eq, where_rows, length, ok, arith, Outcome-cases,
}
use backend_ssas_rrhh.Nomina.Rows.{CurrentUser}
use backend_ssas_rrhh.Suscripciones.{
  PlanSuscripcion, require_operational, require_vacancy_capacity, counts_vacancy,
}
use backend_ssas_rrhh.Reclutamiento.Rows.{EstadoVacante, Vacante, ReclutamientoDb, is_publicada}
use backend_ssas_rrhh.Reclutamiento.Lookup.{count, update_key, target_empresa}
use backend_ssas_rrhh.Reclutamiento.Contratacion.{vacante_key}
use backend_ssas_rrhh.Reclutamiento.Vacantes.{VacanteError, get_or, obtener}
use backend_ssas_rrhh.Reclutamiento.Publicacion.{
  with_publicacion, publicar, plan_row, plan_view, estado_text, publicar_vacante,
}
use backend_ssas_rrhh.Reclutamiento.Keys.{count-gains, or_raise-found}

-- The published vacancies of the company.
abbrev pub published_of : ℕ → Vacante → Bool
published_of empresa v = v.empresa_id == empresa && is_publicada v.estado

published_text : (e : EstadoVacante) → str_eq (estado_text e) "PUBLICADA" ≡ is_publicada e
published_text EstadoVacante.borrador = refl
published_text EstadoVacante.publicada = refl
published_text EstadoVacante.pausada = refl
published_text EstadoVacante.cerrada = refl
published_text EstadoVacante.cancelada = refl

-- The policy counts the published vacancies.
plan_view-count :
    (empresa : ℕ) (vs : List Vacante)
    → length (where_rows (counts_vacancy empresa) (map plan_row vs))
      ≡ count (published_of empresa) vs
plan_view-count empresa [] = refl
plan_view-count empresa (v ∷ vs) =
    let text = published_text v.estado in
    let rest = plan_view-count empresa vs in rw text (ground arith)

-- A publication that returned of a vacancy of the company that was not published.
publish-count :
    (now empresa id fecha : ℕ) (db : ReclutamientoDb) {v : Vacante}
    → obtener id empresa db ≡ ok v
    → is_publicada v.estado ≡ false
    → count (published_of empresa) (update_key vacante_key id (with_publicacion fecha) db.vacantes)
      ≡ count (published_of empresa) db.vacantes + 1
unfolding obtener
publish-count now empresa id fecha db {v} got hidden =
    let row =
      or_raise-found vacante_key id (λ w. w.empresa_id == empresa) db.vacantes
        (VacanteError.not_found "Vacante no encontrada") got in
    let own = row.2 in
    count-gains vacante_key id (with_publicacion fecha) (published_of empresa) db.vacantes row.0
      (ground arith) (ground arith)

-- The published vacancies are within the plan that the company has.
pub record InPlan (grace_days now empresa : ℕ) (db db' : ReclutamientoDb) : Type 0 where
  pub plan : PlanSuscripcion
  pub operational : require_operational grace_days now empresa (plan_view db) ≡ ok plan
  pub one_more :
      count (published_of empresa) db'.vacantes ≡ count (published_of empresa) db.vacantes + 1
  pub within : count (published_of empresa) db'.vacantes ≤ plan.max_vacantes_activas

-- Publishing a vacancy over the endpoint, when it returns for the company `empresa`, adds one to the
-- published vacancies of the company, and they are within the plan of a subscription that is operational.
pub publicar_vacante-InPlan :
    (grace_days now : ℕ) (user : CurrentUser) (empresa_id : Option ℕ) (id empresa : ℕ)
    (row : Vacante) (db db' : ReclutamientoDb)
    → target_empresa user empresa_id ≡ ok empresa
    → publicar_vacante grace_days now user empresa_id id db ≡ ok (row, db')
    → InPlan grace_days now empresa db db'
unfolding publicar_vacante publicar require_vacancy_capacity
publicar_vacante-InPlan grace_days now user empresa_id id empresa row db db' target returned =
    elim (Outcome-cases (require_operational grace_days now empresa (plan_view db))) [
      | inr (e, failed) ↦ ground arith
      | inl (plan, operational) ↦ elim (Outcome-cases (obtener id empresa db)) [
        | inr (e, failed) ↦ ground arith
        | inl (v, got) ↦
            let hidden : is_publicada v.estado ≡ false = ground arith in
            let fecha = get_or v.fecha_publicacion now in
            let rows : db'.vacantes
                ≡ update_key vacante_key id (with_publicacion fecha) db.vacantes =
              ground arith in
            let counted = publish-count now empresa id fecha db got hidden in
            let more : count (published_of empresa) db'.vacantes
                ≡ count (published_of empresa) db.vacantes + 1 =
              rw rows counted in
            let seen = plan_view-count empresa db.vacantes in
            let room : length (where_rows (counts_vacancy empresa) (map plan_row db.vacantes))
                < plan.max_vacantes_activas =
              ground arith in
            record {
              plan = plan;
              operational = operational;
              one_more = more;
              within = omega (arith, more, seen, room);
            }
      ]
    ]
