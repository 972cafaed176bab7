-- ===== src/Reclutamiento/Lookup.antt =====
-- The queries of `SeleccionRepository`
-- (src/ssas/postulaciones/infrastructure/persistence/repositories/seleccion_repository.py). A table has
-- one row for each key, so a query by key is that row, if the rest of the condition holds of it.
-- The row locks of the queries are not modelled: a request runs as one step.
use backend_ssas_rrhh.Base.{
  ℕ, Bool, not, ◌&&◌, Option, none, some, List, [], ◌∷◌, String, ◌==◌, is_some, same_key, member,
  find_first, where_rows, length, leb, Outcome, ok, err, ◌>>=◌, ◌>>◌, raise_if, or_raise,
  if◌then◌else◌,
}
use backend_ssas_rrhh.Nomina.Rows.{CurrentUser}
use backend_ssas_rrhh.Reclutamiento.Rows.{
  Vacante, Postulacion, Postulante, Entrevista, Evaluacion, EtapaReclutamiento, Usuario,
  ReclutamientoDb,
}

-- `SeleccionError(message, status_code)`, or the `HTTPException` of an endpoint.
pub data SeleccionError : Type 0 where
  seleccion_error http : ℕ → String → SeleccionError

-- The status of an error without one.
abbrev pub conflicto : String → SeleccionError
conflicto = seleccion_error 409

abbrev pub passing {ℓ} : {A : Type ℓ} → (A → Bool) → Option A → Option A
passing p none = none
passing p (some r) = if p r then some r else none

-- `select(...).where(key == i, p)`
abbrev pub find_key {ℓ} : {A : Type ℓ} → (A → ℕ) → ℕ → (A → Bool) → List A → Option A
find_key key i p rows = passing p (find_first (λ r. key r == i) rows)

-- `.join(VacanteModel).where(VacanteModel.empresa_id == empresa)`
abbrev pub in_company : ℕ → ReclutamientoDb → Postulacion → Bool
in_company empresa db p =
    is_some
      (find_key (λ (v : Vacante). v.id) p.vacante_id (λ v. v.empresa_id == empresa) db.vacantes)

abbrev pub applicant_in_company : ℕ → ReclutamientoDb → Postulacion → Bool
applicant_in_company empresa db p = is_some (
    find_key (λ (c : Postulante). c.id) p.postulante_id (λ c. c.empresa_id == empresa)
      db.postulantes)

-- `.join(PostulacionModel).join(VacanteModel).where(VacanteModel.empresa_id == empresa)`
abbrev pub application_in_company : ℕ → ReclutamientoDb → ℕ → Bool
application_in_company empresa db postulacion_id =
    is_some
      (find_key (λ (p : Postulacion). p.id) postulacion_id (in_company empresa db) db.postulaciones)

module _ (empresa : ℕ) (db : ReclutamientoDb) where
  abbrev pub postulacion : ℕ → Outcome SeleccionError Postulacion
  postulacion id =
      or_raise
        (find_key (λ (p : Postulacion). p.id) id
          (λ p. in_company empresa db p && applicant_in_company empresa db p) db.postulaciones)
        (seleccion_error 404 "Postulación no encontrada")

  abbrev pub vacante : ℕ → Outcome SeleccionError Vacante
  vacante id =
      or_raise (find_key (λ (v : Vacante). v.id) id (λ v. v.empresa_id == empresa) db.vacantes)
        (seleccion_error 404 "Vacante no encontrada")

  abbrev pub postulante : ℕ → Outcome SeleccionError Postulante
  postulante id =
      or_raise
        (find_key (λ (c : Postulante). c.id) id (λ c. c.empresa_id == empresa) db.postulantes)
        (seleccion_error 404 "Postulante no encontrado")

  abbrev pub entrevista : ℕ → Outcome SeleccionError Entrevista
  entrevista id =
      or_raise
        (find_key (λ (e : Entrevista). e.id) id
          (λ e. application_in_company empresa db e.postulacion_id) db.entrevistas)
        (seleccion_error 404 "Entrevista no encontrada")

  abbrev pub evaluacion : ℕ → Outcome SeleccionError Evaluacion
  evaluacion id =
      or_raise
        (find_key (λ (e : Evaluacion). e.id) id
          (λ e. application_in_company empresa db e.postulacion_id) db.evaluaciones)
        (seleccion_error 404 "Evaluación no encontrada")

  -- `get_user_permission_codes` is an argument: the codes of a user in the company.
  abbrev pub responsable : (ℕ → ℕ → List String) → ℕ → String → Outcome SeleccionError Usuario
  responsable permission_codes id capacidad = do
    user ←
        or_raise
          (find_key (λ (u : Usuario). u.id) id
            (λ u.
              same_key u.empresa_id (some empresa) && u.is_active && not (is_some u.eliminado_at))
            db.usuarios)
          (seleccion_error 422 "El responsable no pertenece a la empresa o está inactivo")
    raise_if (not (member capacidad (permission_codes id empresa)))
        (seleccion_error 422 "El responsable no tiene capacidad para realizar esa tarea")
    ok user

-- The row of the least number, the first of them: `.order_by(orden)` and the first row.
abbrev pub least_by {ℓ} : {A : Type ℓ} → (A → ℕ) → List A → Option A
least_by key [] = none
least_by key (x ∷ xs) =
    let rest = least_by key xs in
    elim rest [ none ↦ some x | some y ↦ if leb (key x) (key y) then some x else some y ]

-- The first stage of the company that passes the test, by its number.
abbrev pub first_stage :
    ℕ → (EtapaReclutamiento → Bool) → ReclutamientoDb → Option EtapaReclutamiento
first_stage empresa p db =
    least_by (λ (e : EtapaReclutamiento). e.orden)
      (where_rows (λ (e : EtapaReclutamiento). e.empresa_id == empresa && p e) db.etapas)

-- The table with the first row of the key changed.
abbrev pub update_key {ℓ} : {A : Type ℓ} → (A → ℕ) → ℕ → (A → A) → List A → List A
update_key key i f [] = []
update_key key i f (x ∷ xs) =
    let rest = update_key key i f xs in if key x == i then f x ∷ xs else x ∷ rest

-- `select(func.count()).where(p)`
abbrev pub count {ℓ} : {A : Type ℓ} → (A → Bool) → List A → ℕ
count p rows = length (where_rows p rows)

-- `_empresa`: the company that a request is about.
unfoldable pub target_empresa : CurrentUser → Option ℕ → Outcome SeleccionError ℕ
target_empresa user requested = elim user.empresa_id [
  | none ↦ or_raise requested (SeleccionError.http 422 "Debe indicar empresa_id")
  | some own ↦ elim requested [
    | none ↦ ok own
    | some asked ↦
        if asked == own
        then ok own
        else err (SeleccionError.http 403 "No puedes operar sobre otra empresa")
  ]
]
