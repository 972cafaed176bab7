-- ===== src/Suscripciones.antt =====
-- `SubscriptionPolicy` and `has_plan_feature` (src/ssas/suscripciones/application/policy.py). Instants are
-- seconds; the size of a stored file is a parameter, `none` where the path leaves the directory or is
-- no file.
mod Tests
use backend_ssas_rrhh.Base.{
  ℕ, ◌+◌, ◌*◌, Bool, true, false, not, ◌&&◌, ◌||◌, Option, none, some, List, [], ◌∷◌, String,
  str_eq, leb, ltb, ◌==◌, is_some, same_key, member, find_first, where_rows, length, Outcome, ok,
  err, ◌>>=◌, ◌>>◌, raise_if, or_raise, if◌then◌else◌,
}

pub record Suscripcion : Type 0 where
  pub empresa_id : ℕ
  pub plan_id : ℕ
  pub estado : String
  pub updated_at : ℕ

pub record PlanSuscripcion : Type 0 where
  pub id : ℕ
  pub max_usuarios : ℕ
  pub max_vacantes_activas : ℕ
  pub max_almacenamiento_mb : ℕ
  pub funciones : Option (List String)

-- The columns of `usuario`, `vacante` and `postulante` that are counted.
pub record Usuario : Type 0 where
  pub empresa_id : Option ℕ
  pub is_active : Bool
  pub eliminado_at : Option ℕ

pub record Vacante : Type 0 where
  pub empresa_id : ℕ
  pub estado : String

pub record Postulante : Type 0 where
  pub empresa_id : ℕ
  pub cv_url : Option ℕ

pub record PlanDb : Type 0 where
  pub suscripciones : List Suscripcion
  pub planes : List PlanSuscripcion
  pub usuarios : List Usuario
  pub vacantes : List Vacante
  pub postulantes : List Postulante

-- `SubscriptionPolicyError`, one constructor for each message.
pub data PolicyError : Type 0 where
  sin_suscripcion : PolicyError
  no_operativa : String → PolicyError
  max_usuarios max_vacantes max_almacenamiento : ℕ → PolicyError

-- The subscription of the company, with its plan; a company has one subscription.
unfoldable pub current : ℕ → PlanDb → Outcome PolicyError (Suscripcion × PlanSuscripcion)
current empresa_id db = do
  s ←
      or_raise (find_first (λ (s : Suscripcion). s.empresa_id == empresa_id) db.suscripciones)
        PolicyError.sin_suscripcion
  plan ←
      or_raise (find_first (λ (p : PlanSuscripcion). p.id == s.plan_id) db.planes)
        PolicyError.sin_suscripcion
  ok (s, plan)

-- `feature in (features or [])`
unfoldable pub has_plan_feature : ℕ → String → PlanDb → Bool
has_plan_feature empresa_id feature db = elim (current empresa_id db) [
  | err _ ↦ false
  | ok (s, plan) ↦ elim plan.funciones [ none ↦ false | some features ↦ member feature features ]
]

-- `allowed`
unfoldable pub is_allowed : ℕ → ℕ → Suscripcion → Bool
is_allowed grace_days now s =
    if str_eq s.estado "PAGO_FALLIDO"
    then leb now (s.updated_at + grace_days * 86400)
    else str_eq s.estado "ACTIVA" || str_eq s.estado "PRUEBA"

abbrev pub counts_user : ℕ → Usuario → Bool
counts_user empresa_id u =
    same_key u.empresa_id (some empresa_id) && u.is_active && not (is_some u.eliminado_at)

abbrev pub counts_vacancy : ℕ → Vacante → Bool
counts_vacancy empresa_id v = v.empresa_id == empresa_id && str_eq v.estado "PUBLICADA"

-- The bytes of the stored files of the company.
unfoldable pub storage_used : (ℕ → Option ℕ) → ℕ → List Postulante → ℕ
storage_used size empresa_id [] = 0
storage_used size empresa_id (p ∷ ps) =
    let rest = storage_used size empresa_id ps in
    if p.empresa_id == empresa_id
    then (elim p.cv_url [
      | none ↦ rest
      | some name ↦ elim (size name) [ none ↦ rest | some bytes ↦ bytes + rest ]
    ])
    else rest

module _ (grace_days now : ℕ) where
  unfoldable pub require_operational : ℕ → PlanDb → Outcome PolicyError PlanSuscripcion
  require_operational empresa_id db = do
    (s, plan) ← current empresa_id db
    raise_if (not (is_allowed grace_days now s)) (PolicyError.no_operativa s.estado)
    ok plan

  unfoldable pub require_user_capacity : ℕ → PlanDb → Outcome PolicyError (Unit {0})
  require_user_capacity empresa_id db = do
    plan ← require_operational empresa_id db
    raise_if (leb plan.max_usuarios (length (where_rows (counts_user empresa_id) db.usuarios)))
        (PolicyError.max_usuarios plan.max_usuarios)

  unfoldable pub require_vacancy_capacity : ℕ → PlanDb → Outcome PolicyError (Unit {0})
  require_vacancy_capacity empresa_id db = do
    plan ← require_operational empresa_id db
    raise_if
        (leb plan.max_vacantes_activas
          (length (where_rows (counts_vacancy empresa_id) db.vacantes)))
        (PolicyError.max_vacantes plan.max_vacantes_activas)

  unfoldable pub require_storage : (ℕ → Option ℕ) → ℕ → ℕ → PlanDb → Outcome PolicyError (Unit {0})
  require_storage size empresa_id bytes_to_add db = do
    plan ← require_operational empresa_id db
    raise_if
        (ltb (plan.max_almacenamiento_mb * 1024 * 1024)
          (storage_used size empresa_id db.postulantes + bytes_to_add))
        (PolicyError.max_almacenamiento plan.max_almacenamiento_mb)
