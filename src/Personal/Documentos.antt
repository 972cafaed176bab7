-- ===== src/Personal/Documentos.antt =====
-- The files of a worker: `_store_document`, `upload_document`, `upload_own_document`, `download_document`
-- and `download_own_document` of src/ssas/personal/infrastructure/http/router.py. A path below the
-- directory of the files is its parts. A text is its code points, a file its bytes.
use backend_ssas_rrhh.Base.{
  ℕ, zero, suc, Bool, true, false, not, ◌&&◌, ◌||◌, Option, none, some, List, [], ◌∷◌, ◌++◌, ◌==◌,
  ltb, length, add_row, Outcome, ok, ◌>>=◌, ◌>>◌, raise_if, or_raise, if◌then◌else◌,
}
use backend_ssas_rrhh.Session.{Handler}
use backend_ssas_rrhh.Reclutamiento.Lookup.{find_key}
use backend_ssas_rrhh.Personal.Rows.{
  HttpError, http, User, Documento, Formato, Ruta, PersonalDb, user_tenant, employee, own_employee,
}

-- `UploadFile`: its format, none for a type that is not admitted, the stem of its name and its bytes.
pub record Archivo : Type 0 where
  pub content_type : Option Formato
  pub stem : List ℕ
  pub bytes : List ℕ

-- The tables, and the files by their paths.
pub record Legajo : Type 0 where
  pub db : PersonalDb
  pub disk : List (Ruta × List ℕ)

-- `signatures`
abbrev pub signature : Formato → List ℕ
signature Formato.pdf = 37 ∷ 80 ∷ 68 ∷ 70 ∷ 45 ∷ []
signature Formato.jpeg = 255 ∷ 216 ∷ 255 ∷ []
signature Formato.png = 137 ∷ 80 ∷ 78 ∷ 71 ∷ 13 ∷ 10 ∷ 26 ∷ 10 ∷ []

-- `suffixes`
abbrev pub suffix : Formato → List ℕ
suffix Formato.pdf = 46 ∷ 112 ∷ 100 ∷ 102 ∷ []
suffix Formato.jpeg = 46 ∷ 106 ∷ 112 ∷ 103 ∷ []
suffix Formato.png = 46 ∷ 112 ∷ 110 ∷ 103 ∷ []

-- `data.startswith(prefix)`
abbrev pub starts_with : List ℕ → List ℕ → Bool
starts_with [] bytes = true
starts_with (p ∷ ps) [] = false
starts_with (p ∷ ps) (b ∷ bs) = b == p && starts_with ps bs

-- `stem[:n]`
abbrev pub take : ℕ → List ℕ → List ℕ
take zero xs = []
take (suc n) [] = []
take (suc n) (x ∷ xs) = x ∷ take n xs

abbrev pub same_format : Formato → Formato → Bool
same_format Formato.pdf Formato.pdf = true
same_format Formato.jpeg Formato.jpeg = true
same_format Formato.png Formato.png = true
same_format _ _ = false

abbrev pub same_ruta : Ruta → Ruta → Bool
same_ruta r s =
    r.empresa == s.empresa
    && r.empleado == s.empleado
    && r.archivo == s.archivo
    && same_format r.formato s.formato

-- The bytes at a path; the last write is the first in the list.
abbrev pub read_bytes : Ruta → List (Ruta × List ℕ) → Option (List ℕ)
read_bytes ruta [] = none
read_bytes ruta ((r, bytes) ∷ rest) = if same_ruta r ruta then some bytes else read_bytes ruta rest

abbrev pub new_documento : ℕ → ℕ → ℕ → ℕ → List ℕ → Formato → Archivo → Documento
new_documento new_id file_id company empleado_id tipo formato archivo = record {
  id = new_id;
  empresa_id = company;
  empleado_id = empleado_id;
  tipo = tipo;
  nombre = take 190 archivo.stem ++ suffix formato;
  ruta_privada = record {
    empresa = company;
    empleado = empleado_id;
    archivo = file_id;
    formato = formato;
  };
  tipo_mime = formato;
  tamano_bytes = length archivo.bytes;
}

-- `_store_document`. The file is written before the row is added, whose insert is taken to succeed.
unfoldable pub store_document :
    ℕ → ℕ → ℕ → ℕ → List ℕ → Archivo → Handler Legajo HttpError Documento
store_document new_id file_id company empleado_id tipo archivo s = do
  raise_if (length tipo == 0 || ltb 30 (length tipo)) (http 422 "Tipo o formato no admitido")
  formato ← or_raise archivo.content_type (http 422 "Tipo o formato no admitido")
  raise_if (length archivo.bytes == 0 || ltb 10485760 (length archivo.bytes))
      (http 413 "Documento vacio o mayor a 10 MB")
  raise_if (not (starts_with (signature formato) archivo.bytes))
      (http 422 "El contenido no coincide con el formato")
  let row = new_documento new_id file_id company empleado_id tipo formato archivo
  ok (
    row,
    record s {
      db = record s.db { documentos = add_row row s.db.documentos };
      disk = (row.ruta_privada, archivo.bytes) ∷ s.disk;
    },
  )

unfoldable pub upload_document :
    User → Option ℕ → ℕ → ℕ → ℕ → List ℕ → Archivo → Handler Legajo HttpError Documento
upload_document user empresa_id new_id file_id empleado_id tipo archivo s = do
  company ← user_tenant user empresa_id
  employee company empleado_id s.db
  store_document new_id file_id company empleado_id tipo archivo s

-- "LICENCIA_MEDICA"
abbrev pub licencia_medica : List ℕ
licencia_medica = 76 ∷ 73 ∷ 67 ∷ 69 ∷ 78 ∷ 67 ∷ 73 ∷ 65 ∷ 95 ∷ 77 ∷ 69 ∷ 68 ∷ 73 ∷ 67 ∷ 65 ∷ []

unfoldable pub upload_own_document : User → ℕ → ℕ → Archivo → Handler Legajo HttpError Documento
upload_own_document user new_id file_id archivo s = do
  (company, worker) ← own_employee user s.db
  store_document new_id file_id company worker.id licencia_medica archivo s

-- The row of the worker's file, and the file if its path is below that of the company.
unfoldable pub open_document : ℕ → ℕ → ℕ → Legajo → Outcome HttpError (List ℕ × Formato × List ℕ)
open_document company empleado_id documento_id s = do
  row ←
      or_raise
        (find_key (λ (d : Documento). d.id) documento_id
          (λ d. d.empresa_id == company && d.empleado_id == empleado_id) s.db.documentos)
        (http 404 "Documento no encontrado")
  raise_if (not (row.ruta_privada.empresa == company)) (http 404 "Archivo privado no disponible")
  bytes ← or_raise (read_bytes row.ruta_privada s.disk) (http 404 "Archivo privado no disponible")
  ok (bytes, row.tipo_mime, row.nombre)

unfoldable pub download_document :
    User → Option ℕ → ℕ → ℕ → Legajo → Outcome HttpError (List ℕ × Formato × List ℕ)
download_document user empresa_id empleado_id documento_id s = do
  company ← user_tenant user empresa_id
  open_document company empleado_id documento_id s

unfoldable pub download_own_document :
    User → ℕ → Legajo → Outcome HttpError (List ℕ × Formato × List ℕ)
download_own_document user documento_id s = do
  (company, worker) ← own_employee user s.db
  open_document company worker.id documento_id s
