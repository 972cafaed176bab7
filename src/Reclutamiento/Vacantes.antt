-- ===== src/Reclutamiento/Vacantes.antt =====
-- The vacancies: `GestionarVacantes` (src/ssas/vacantes/application/use_cases/gestionar_vacantes.py) over
-- `SqlAlchemyVacanteRepository`: creation, update and deletion. The plan of the company and the error
-- of its company are those of the endpoints.
use backend_ssas_rrhh.Base.{
  ℕ, Bool, false, not, ◌&&◌, ◌||◌, Option, none, some, List, [], ◌∷◌, map, ◌++◌, String, ◌==◌,
  is_some, same_key, any, length, where_rows, add_row, Outcome, ok, ◌>>=◌, ◌>>◌, raise_if, or_raise,
  if◌then◌else◌,
}
use backend_ssas_rrhh.Session.{Handler}
use backend_ssas_rrhh.Suscripciones.{PolicyError}
use backend_ssas_rrhh.Reclutamiento.Rows.{
  EstadoVacante, Vacante, VacanteHabilidad, Postulacion, Catalogo, Usuario, ReclutamientoDb,
  is_borrador, is_publicada,
}
use backend_ssas_rrhh.Reclutamiento.Lookup.{SeleccionError, find_key, update_key, count}
use backend_ssas_rrhh.Reclutamiento.Contratacion.{vacante_key}

-- src/ssas/vacantes/domain/exceptions.py, the refusal of a foreign key, and what the endpoints raise.
pub data VacanteError : Type 0 where
  not_found invalid_state reference_error integrity_error : String → VacanteError
  sin_empresa : SeleccionError → VacanteError
  sin_plan : PolicyError → VacanteError

-- `CrearVacanteRequest`, with the skills that it names.
pub record CrearVacanteRequest : Type 0 where
  pub cargo_id : ℕ
  pub departamento_id : ℕ
  pub titulo : String
  pub cantidad_vacantes : ℕ
  pub fecha_cierre : Option ℕ
  pub habilidades : List ℕ

-- `model_dump(exclude_unset=True)` of an `ActualizarVacanteRequest`: the fields that were sent.
pub record ActualizarVacanteRequest : Type 0 where
  pub cargo_id : Option ℕ
  pub departamento_id : Option ℕ
  pub titulo : Option String
  pub cantidad_vacantes : Option ℕ
  pub fecha_cierre : Option (Option ℕ)
  pub habilidades : Option (List ℕ)

-- `values.get(key, current)`
abbrev pub get_or : {A : Type 0} → Option A → A → A
get_or none current = current
get_or (some a) current = a

unfoldable pub obtener : ℕ → ℕ → ReclutamientoDb → Outcome VacanteError Vacante
obtener vacante_id empresa db =
    or_raise (find_key vacante_key vacante_id (λ v. v.empresa_id == empresa) db.vacantes)
      (VacanteError.not_found "Vacante no encontrada")

abbrev catalogued : ℕ → ℕ → List Catalogo → Bool
catalogued empresa id rows =
    is_some (find_key (λ (c : Catalogo). c.id) id (λ c. c.empresa_id == empresa) rows)

unfoldable pub references_belong_to_empresa : ℕ → ℕ → ℕ → ℕ → ReclutamientoDb → Bool
references_belong_to_empresa empresa cargo_id departamento_id responsable_id db =
    catalogued empresa cargo_id db.cargos
    && catalogued empresa departamento_id db.departamentos
    && is_some (
        find_key (λ (u : Usuario). u.id) responsable_id (λ u. same_key u.empresa_id (some empresa))
          db.usuarios)

abbrev pub has_id : ℕ → List ℕ → Bool
has_id i ids = any (λ j. j == i) ids

-- `set(ids)`
abbrev pub distinct : List ℕ → List ℕ
distinct [] = []
distinct (i ∷ ids) = let rest = distinct ids in if has_id i ids then rest else i ∷ rest

-- `uq_vacante_habilidad_pair` refuses a skill that is named twice.
abbrev pub repeated : List ℕ → Bool
repeated [] = false
repeated (i ∷ ids) = has_id i ids || repeated ids

unfoldable pub skills_belong_to_empresa : ℕ → List ℕ → ReclutamientoDb → Bool
skills_belong_to_empresa empresa ids db =
    count (λ (h : Catalogo). h.empresa_id == empresa && has_id h.id ids && h.activo) db.habilidades
    == length (distinct ids)

unfoldable pub check_references :
    ℕ → ℕ → ℕ → ℕ → List ℕ → ReclutamientoDb → Outcome VacanteError (Unit {0})
check_references empresa cargo_id departamento_id responsable_id habilidades db = do
  raise_if (not (references_belong_to_empresa empresa cargo_id departamento_id responsable_id db))
      (VacanteError.reference_error "Cargo, departamento o responsable no pertenece a la empresa")
  raise_if (not (skills_belong_to_empresa empresa habilidades db))
      (VacanteError.reference_error "Una o más habilidades no pertenecen a la empresa")

abbrev pub new_vacante : ℕ → ℕ → ℕ → CrearVacanteRequest → Vacante
new_vacante new_id empresa responsable_id x = record {
  id = new_id;
  empresa_id = empresa;
  cargo_id = x.cargo_id;
  departamento_id = x.departamento_id;
  responsable_id = responsable_id;
  titulo = x.titulo;
  cantidad_vacantes = x.cantidad_vacantes;
  fecha_publicacion = none;
  fecha_cierre = x.fecha_cierre;
  estado = EstadoVacante.borrador;
}

abbrev skill_rows : ℕ → List ℕ → List VacanteHabilidad
skill_rows vacante_id ids = map (λ h. record { vacante_id = vacante_id; habilidad_id = h }) ids

-- The table gives a new vacancy the state `BORRADOR`.
unfoldable pub crear :
    ℕ → ℕ → ℕ → CrearVacanteRequest → Handler ReclutamientoDb VacanteError Vacante
crear empresa responsable_id new_id x db = do
  check_references empresa x.cargo_id x.departamento_id responsable_id x.habilidades db
  raise_if (repeated x.habilidades) (VacanteError.integrity_error "No se pudo crear la vacante")
  let v = new_vacante new_id empresa responsable_id x
  ok (
    v,
    record db {
      vacantes = add_row v db.vacantes;
      vacante_habilidades = db.vacante_habilidades ++ skill_rows new_id x.habilidades;
    },
  )

abbrev pub with_values : ActualizarVacanteRequest → Vacante → Vacante
with_values x v = record v {
  cargo_id = get_or x.cargo_id v.cargo_id;
  departamento_id = get_or x.departamento_id v.departamento_id;
  titulo = get_or x.titulo v.titulo;
  cantidad_vacantes = get_or x.cantidad_vacantes v.cantidad_vacantes;
  fecha_cierre = get_or x.fecha_cierre v.fecha_cierre;
}

-- The skills of the vacancy are replaced where the request names some.
abbrev new_skills : ℕ → Option (List ℕ) → List VacanteHabilidad → List VacanteHabilidad
new_skills vacante_id none rows = rows
new_skills vacante_id (some ids) rows =
    where_rows (λ (h : VacanteHabilidad). not (h.vacante_id == vacante_id)) rows
    ++ skill_rows vacante_id ids

unfoldable pub actualizar :
    ℕ → ℕ → ActualizarVacanteRequest → Handler ReclutamientoDb VacanteError Vacante
actualizar vacante_id empresa x db = do
  current ← obtener vacante_id empresa db
  raise_if (not (is_borrador current.estado))
      (VacanteError.invalid_state "Solo se pueden editar vacantes en borrador")
  check_references empresa (get_or x.cargo_id current.cargo_id)
      (get_or x.departamento_id current.departamento_id) current.responsable_id
      (get_or x.habilidades []) db
  raise_if (repeated (get_or x.habilidades []))
      (VacanteError.integrity_error "No se pudo actualizar la vacante")
  ok (
    with_values x current,
    record db {
      vacantes = update_key vacante_key vacante_id (with_values x) db.vacantes;
      vacante_habilidades = new_skills vacante_id x.habilidades db.vacante_habilidades;
    },
  )

-- The foreign key of the applications refuses the deletion; that of the skills cascades.
unfoldable pub eliminar : ℕ → ℕ → Handler ReclutamientoDb VacanteError (Unit {0})
eliminar vacante_id empresa db = do
  current ← obtener vacante_id empresa db
  raise_if (is_publicada current.estado)
      (VacanteError.invalid_state "No se puede eliminar una vacante publicada")
  raise_if (any (λ (p : Postulacion). p.vacante_id == vacante_id) db.postulaciones)
      (VacanteError.integrity_error "La vacante tiene postulaciones")
  ok (
    tt,
    record db {
      vacantes = where_rows (λ (v : Vacante). not (v.id == vacante_id)) db.vacantes;
      vacante_habilidades =
          where_rows (λ (h : VacanteHabilidad). not (h.vacante_id == vacante_id))
            db.vacante_habilidades;
    },
  )
