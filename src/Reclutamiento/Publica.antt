-- ===== src/Reclutamiento/Publica.antt =====
-- The public application: `CrearPostulacionPublica`
-- (src/ssas/postulaciones/application/use_cases/crear_postulacion_publica.py) and the methods of
-- `SqlAlchemyPostulacionPublicaRepository` that it calls. The texts are those that the endpoint
-- stripped; `lower` is the `lower` of Python and of the database, `suffix` the suffix that `pathlib`
-- gives a file name, `save_cv` the name under which the storage keeps the file.
use backend_ssas_rrhh.Base.{
  ℕ, zero, suc, ◌+◌, ◌*◌, Bool, true, false, not, ◌&&◌, Option, none, some, List, [], ◌∷◌, String,
  ltb, leb, ◌==◌, str_eq, is_some, member, any, where_rows, add_row, Outcome, ok, err, ◌>>=◌, ◌>>◌,
  raise_if, or_raise, if◌then◌else◌,
}
use backend_ssas_rrhh.Session.{Handler}
use backend_ssas_rrhh.Reclutamiento.Rows.{
  Vacante, Postulacion, Postulante, Empresa, EtapaReclutamiento, ReclutamientoDb, is_publicada,
}
use backend_ssas_rrhh.Reclutamiento.Lookup.{find_key, update_key, first_stage}
use backend_ssas_rrhh.Reclutamiento.Contratacion.{
  vacante_key, postulante_key, is_de, new_postulacion,
}

-- src/ssas/postulaciones/domain/exceptions.py, and the failure of `scalar_one_or_none`.
pub data PostulacionError : Type 0 where
  cv_invalido vacante_no_disponible etapa_inicial_no_configurada postulacion_duplicada :
      String → PostulacionError
  multiple_results : PostulacionError

-- `CvAdjunto`, with the length of its content.
pub record CvAdjunto : Type 0 where
  pub filename : String
  pub content_type : Option String
  pub content_length : ℕ

-- `DatosPostulantePublico`
pub record DatosPostulante : Type 0 where
  pub vacante_id : ℕ
  pub nombres : String
  pub apellidos : String
  pub ci : String
  pub email : String
  pub telefono : String
  pub ciudad : String

abbrev pub max_cv_bytes : ℕ
max_cv_bytes = 5 * 1024 * 1024

abbrev pub allowed_cv_extensions : List String
allowed_cv_extensions = ".pdf" ∷ ".docx" ∷ []

abbrev pub allowed_cv_content_types : List String
allowed_cv_content_types =
    "application/pdf" ∷ "application/vnd.openxmlformats-officedocument.wordprocessingml.document"
    ∷ "application/octet-stream" ∷ []

-- `cv.content_type and cv.content_type not in ALLOWED_CV_CONTENT_TYPES`
abbrev pub bad_content_type : Option String → Bool
bad_content_type none = false
bad_content_type (some t) = not (str_eq t "") && not (member t allowed_cv_content_types)

module _ (lower suffix : String → String) where
  unfoldable pub validate_cv : CvAdjunto → Outcome PostulacionError (Unit {0})
  validate_cv cv = do
    raise_if (cv.content_length == 0) (PostulacionError.cv_invalido "El CV es obligatorio")
    raise_if (ltb max_cv_bytes cv.content_length)
        (PostulacionError.cv_invalido "El CV no debe superar 5 MB")
    raise_if (not (member (lower (suffix cv.filename)) allowed_cv_extensions))
        (PostulacionError.cv_invalido "El CV debe ser un archivo PDF o DOCX")
    raise_if (bad_content_type cv.content_type)
        (PostulacionError.cv_invalido "El tipo de archivo CV debe ser PDF o DOCX")

-- `condiciones_vacante_vigente`: a company that is active, and a vacancy that is not over.
abbrev pub is_vigente : ℕ → ReclutamientoDb → Vacante → Bool
is_vigente now db v =
    is_some (
      find_key (λ (e : Empresa). e.id) v.empresa_id (λ e. e.activo && not (is_some e.eliminado_at))
        db.empresas)
    && (elim v.fecha_cierre [ none ↦ true | some cierre ↦ leb now cierre ])

abbrev pub get_vacante : ℕ → ReclutamientoDb → ℕ → Option Vacante
get_vacante now db vacante_id = find_key vacante_key vacante_id (is_vigente now db) db.vacantes

-- `scalar_one_or_none`
abbrev pub one_or_none : {A : Type 0} → List A → Outcome PostulacionError (Option A)
one_or_none [] = ok none
one_or_none (x ∷ []) = ok (some x)
one_or_none (x ∷ y ∷ xs) = err PostulacionError.multiple_results

abbrev pub same_ci : (String → String) → ℕ → String → Postulante → Bool
same_ci lower empresa ci c = c.empresa_id == empresa && str_eq (lower c.ci) (lower ci)

abbrev pub codigo_exists : String → ReclutamientoDb → Bool
codigo_exists codigo db =
    any (λ (p : Postulacion). str_eq p.codigo_seguimiento codigo) db.postulaciones

-- `tries` more draws, the first of them the one of this number.
unfoldable pub try_codes : (ℕ → String) → ReclutamientoDb → ℕ → ℕ → Outcome PostulacionError String
try_codes draw db zero i =
    err (PostulacionError.postulacion_duplicada "No se pudo generar un codigo de seguimiento unico")
try_codes draw db (suc tries) i =
    let rest = try_codes draw db tries (i + 1) in
    if codigo_exists (draw i) db then rest else ok (draw i)

-- `_generate_codigo_seguimiento`: `for _ in range(10)`.
unfoldable pub generate_codigo : (ℕ → String) → ReclutamientoDb → Outcome PostulacionError String
generate_codigo draw db = try_codes draw db 10 0

abbrev pub with_datos_publicos : DatosPostulante → String → Postulante → Postulante
with_datos_publicos x cv_url c = record c {
  nombres = x.nombres;
  apellidos = x.apellidos;
  email = x.email;
  telefono = x.telefono;
  ciudad = x.ciudad;
  cv_url = some cv_url;
}

abbrev pub new_postulante : ℕ → ℕ → DatosPostulante → String → Postulante
new_postulante new_id empresa x cv_url = record {
  id = new_id;
  empresa_id = empresa;
  nombres = x.nombres;
  apellidos = x.apellidos;
  ci = x.ci;
  email = x.email;
  telefono = x.telefono;
  ciudad = x.ciudad;
  cv_url = some cv_url;
  en_banco_talento = false;
}

-- `upsert_postulante`, of the applicant that was found.
abbrev pub upsert_postulante :
    ℕ → ℕ → DatosPostulante → String → Option Postulante → List Postulante → ℕ × List Postulante
upsert_postulante new_id empresa x cv_url none rows =
    (new_id, add_row (new_postulante new_id empresa x cv_url) rows)
upsert_postulante new_id empresa x cv_url (some c) rows =
    (c.id, update_key postulante_key c.id (with_datos_publicos x cv_url) rows)

-- The applicant that was found has an application for the vacancy.
abbrev pub applied : ℕ → Option Postulante → ReclutamientoDb → Bool
applied vacante_id none db = false
applied vacante_id (some c) db = any (is_de vacante_id c.id) db.postulaciones

-- What the environment gives a request: the time, the ids of the new rows and the random texts.
pub record Entorno : Type 0 where
  pub now : ℕ
  pub postulante_id : ℕ
  pub postulacion_id : ℕ
  pub draw : ℕ → String

module _ (lower suffix : String → String) (save_cv : CvAdjunto → String → String) where
  unfoldable pub crear_postulacion_publica :
      Entorno → DatosPostulante → CvAdjunto → Handler ReclutamientoDb PostulacionError Postulacion
  crear_postulacion_publica env x cv db = do
    validate_cv lower suffix cv
    v ←
        or_raise (get_vacante env.now db x.vacante_id)
          (PostulacionError.vacante_no_disponible "La vacante no existe o no esta publicada")
    raise_if (not (is_publicada v.estado))
        (PostulacionError.vacante_no_disponible "La vacante no existe o no esta publicada")
    etapa ← or_raise (first_stage v.empresa_id (λ (e : EtapaReclutamiento). e.es_inicial) db) (
        PostulacionError.etapa_inicial_no_configurada
          "La empresa no tiene una etapa inicial de reclutamiento configurada")
    found ← one_or_none (where_rows (same_ci lower v.empresa_id x.ci) db.postulantes)
    raise_if (applied v.id found db)
        (PostulacionError.postulacion_duplicada "Ya existe una postulacion para esta vacante")
    codigo ← generate_codigo env.draw db
    let stored =
        upsert_postulante env.postulante_id v.empresa_id x (save_cv cv codigo) found db.postulantes
    let post = new_postulacion env.postulacion_id v.id stored.0 etapa.id codigo env.now
    ok (post, record db { postulantes = stored.1; postulaciones = add_row post db.postulaciones })
