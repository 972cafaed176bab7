-- ===== src/Suscripciones/Tests.antt =====
-- Instances of the limits of a plan.
use backend_ssas_rrhh.Base.{ℕ, ◌≡◌, refl, true, Option, none, some, [], ◌∷◌, ok}
use backend_ssas_rrhh.Suscripciones.{
  PlanSuscripcion, Usuario, Vacante, PlanDb, current, is_allowed, require_operational,
  require_user_capacity, require_vacancy_capacity,
}

abbrev small_plan : PlanSuscripcion
small_plan = record {
  id = 2;
  max_usuarios = 2;
  max_vacantes_activas = 1;
  max_almacenamiento_mb = 1;
  funciones = none;
}

abbrev active_user : Usuario
active_user = record { empresa_id = some 1; is_active = true; eliminado_at = none }

abbrev open_vacancy : Vacante
open_vacancy = record { empresa_id = 1; estado = "PUBLICADA" }

abbrev plan_db : PlanDb
plan_db = record {
  suscripciones =
      record { empresa_id = 1; plan_id = 2; estado = "PAGO_FALLIDO"; updated_at = 1000 } ∷ [];
  planes = small_plan ∷ [];
  usuarios = active_user ∷ [];
  vacantes = [];
  postulantes = record { empresa_id = 1; cv_url = some 4 } ∷ [];
}

abbrev sizes : ℕ → Option ℕ
sizes name = some 1000

user_room : require_user_capacity 3 260000 1 plan_db ≡ ok tt
unfolding require_user_capacity require_operational current is_allowed
user_room = refl

vacancy_room : require_vacancy_capacity 3 260000 1 plan_db ≡ ok tt
unfolding require_vacancy_capacity require_operational current is_allowed
vacancy_room = refl
