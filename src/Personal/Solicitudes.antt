-- ===== src/Personal/Solicitudes.antt =====
-- A request for leave: `request_absence` of src/ssas/personal/infrastructure/http/router.py. The mails
-- are left out.
use backend_ssas_rrhh.Base.{
  ℕ, ◌+◌, ◌-◌, Bool, false, not, ◌&&◌, ◌||◌, Option, none, some, List, [], ◌∷◌, String, ◌==◌, ltb,
  leb, str_eq, is_some, any, add_row, Outcome, ok, ◌>>=◌, ◌>>◌, raise_if, or_raise, if◌then◌else◌,
}
use backend_ssas_rrhh.Session.{Handler}
use backend_ssas_rrhh.Reclutamiento.Lookup.{find_key}
use backend_ssas_rrhh.Personal.Rows.{
  HttpError, http, User, Trabajador, TipoAusencia, Solicitud, EstadoSolicitud, Documento,
  PersonalDb, Calendario, is_viva, own_employee,
}
use backend_ssas_rrhh.Personal.Ausencias.{tipo_key}

-- `AbsenceInput`
pub record AbsenceInput : Type 0 where
  pub tipo_ausencia_id : ℕ
  pub fecha_inicio : ℕ
  pub fecha_fin : ℕ
  pub motivo : String
  pub documento_id : Option ℕ

abbrev pub dias : AbsenceInput → ℕ
dias x = x.fecha_fin + 1 - x.fecha_inicio

-- A leave of the worker that waits or was approved, and meets these days.
abbrev pub meets : ℕ → ℕ → ℕ → ℕ → Solicitud → Bool
meets company empleado_id desde hasta s =
    s.empresa_id == company
    && s.empleado_id == empleado_id
    && is_viva s.estado
    && leb s.fecha_inicio hasta
    && leb desde s.fecha_fin

abbrev is_of_year : Calendario → ℕ → ℕ → ℕ → ℕ → Solicitud → Bool
is_of_year cal company empleado_id tipo_id gestion s =
    s.empresa_id == company
    && s.empleado_id == empleado_id
    && s.tipo_ausencia_id == tipo_id
    && is_viva s.estado
    && leb (cal.first_day gestion) s.fecha_inicio
    && leb s.fecha_fin (cal.last_day gestion)

-- `sum(used_days)`
abbrev pub sum_days : (Solicitud → Bool) → List Solicitud → ℕ
sum_days p [] = 0
sum_days p (s ∷ rest) =
    let more = sum_days p rest in if p s then s.dias_solicitados + more else more

abbrev after_exit : Trabajador → ℕ → Bool
after_exit w fecha_fin = elim w.fecha_salida [ none ↦ false | some salida ↦ ltb salida fecha_fin ]

unfoldable pub check_maximum :
    Calendario → ℕ → ℕ → TipoAusencia → AbsenceInput → PersonalDb → Outcome HttpError (Unit {0})
check_maximum cal company empleado_id kind x db = elim kind.dias_maximos_anio [
  | none ↦ ok tt
  | some maximo ↦
      raise_if (not (cal.year x.fecha_inicio == cal.year x.fecha_fin))
        (http 422 "Este tipo de ausencia no puede cruzar gestiones")
      >> raise_if
          (ltb maximo (
            dias x
            + sum_days (is_of_year cal company empleado_id kind.id (cal.year x.fecha_inicio))
                db.solicitudes))
          (http 409 "Se supera el maximo anual de este tipo de ausencia")
]

unfoldable pub check_document : ℕ → ℕ → Option ℕ → PersonalDb → Outcome HttpError (Unit {0})
check_document company empleado_id documento_id db = elim documento_id [
  | none ↦ ok tt
  | some id ↦
      raise_if
        (not (
          is_some (
            find_key (λ (d : Documento). d.id) id
              (λ d. d.empresa_id == company && d.empleado_id == empleado_id) db.documentos)))
        (http 422 "El documento no pertenece al legajo del empleado")
]

abbrev pub new_solicitud : ℕ → ℕ → ℕ → AbsenceInput → Solicitud
new_solicitud new_id company empleado_id x = record {
  id = new_id;
  empresa_id = company;
  empleado_id = empleado_id;
  tipo_ausencia_id = x.tipo_ausencia_id;
  fecha_inicio = x.fecha_inicio;
  fecha_fin = x.fecha_fin;
  dias_solicitados = dias x;
  dias_descontados = none;
  motivo = x.motivo;
  documento_id = x.documento_id;
  estado = EstadoSolicitud.pendiente;
  observacion_jefe = none;
  resuelto_por_id = none;
  resuelto_en = none;
}

unfoldable pub request_absence :
    Calendario → User → ℕ → AbsenceInput → Handler PersonalDb HttpError Solicitud
request_absence cal user new_id x db = do
  (company, worker) ← own_employee user db
  raise_if (ltb x.fecha_fin x.fecha_inicio || ltb 366 (dias x))
      (http 422 "Rango de fechas invalido")
  raise_if
      (not (str_eq worker.estado "ACTIVO")
        || ltb x.fecha_inicio worker.fecha_ingreso
        || after_exit worker x.fecha_fin)
      (http 409 "La ausencia debe estar dentro de la relacion laboral activa")
  kind ←
      or_raise
        (find_key tipo_key x.tipo_ausencia_id (λ t. t.empresa_id == company && t.activo) db.tipos)
        (http 422 "Tipo de ausencia o documento invalido")
  raise_if (kind.requiere_documento && not (is_some x.documento_id))
      (http 422 "Tipo de ausencia o documento invalido")
  check_maximum cal company worker.id kind x db
  check_document company worker.id x.documento_id db
  raise_if (any (meets company worker.id x.fecha_inicio x.fecha_fin) db.solicitudes)
      (http 409 "Ya existe una ausencia en estas fechas")
  let row = new_solicitud new_id company worker.id x
  ok (row, record db { solicitudes = add_row row db.solicitudes })
