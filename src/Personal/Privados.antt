-- ===== src/Personal/Privados.antt =====
-- A file of a worker is kept, and for that worker.
use backend_ssas_rrhh.Base.{
  ℕ, ◌≡◌, refl, ◌∙◌, inl, inr, true, false, ◌&&◌, none, some, List, ◌∷◌, ◌==◌, find_first, add_row,
  ok, err, arith, Option-cases,
}
use backend_ssas_rrhh.Reclutamiento.Keys.{find_first-or_new}
use backend_ssas_rrhh.Personal.Rows.{
  http, User, Trabajador, Documento, Formato, Ruta, PersonalDb, own_employee,
}
use backend_ssas_rrhh.Personal.Documentos.{
  Archivo, Legajo, same_format, same_ruta, read_bytes, licencia_medica, store_document,
  open_document, upload_own_document, download_own_document,
}

-- The row is added, and the file stands at its path.
record Stored (new_id company empleado_id : ℕ) (archivo : Archivo) (row : Documento) (s s' : Legajo)
    : Type 0 where
  id : row.id ≡ new_id
  empresa : row.empresa_id ≡ company
  empleado : row.empleado_id ≡ empleado_id
  below : row.ruta_privada.empresa ≡ company
  documentos : s'.db.documentos ≡ add_row row s.db.documentos
  trabajadores : s'.db.trabajadores ≡ s.db.trabajadores
  disk : s'.disk ≡ (row.ruta_privada, archivo.bytes) ∷ s.disk

store_document-Stored :
    (new_id file_id company empleado_id : ℕ) (tipo : List ℕ) (archivo : Archivo) (row : Documento)
    (s s' : Legajo)
    → store_document new_id file_id company empleado_id tipo archivo s ≡ ok (row, s')
    → Stored new_id company empleado_id archivo row s s'
unfolding store_document
store_document-Stored new_id file_id company empleado_id tipo archivo row s s' done =
    elim (Option-cases archivo.content_type) [
      | inl nothing ↦ absurd (ground arith)
      | inr (formato, there) ↦ record {
        id = ground arith;
        empresa = ground arith;
        empleado = ground arith;
        below = ground arith;
        documentos = ground arith;
        trabajadores = ground arith;
        disk = ground arith;
      }
    ]

same_format_self : (f : Formato) → same_format f f ≡ true
same_format_self Formato.pdf = refl
same_format_self Formato.jpeg = refl
same_format_self Formato.png = refl

same_ruta_self : (r : Ruta) → same_ruta r r ≡ true
same_ruta_self r = ground (arith, same_format_self r.formato)

module _ (new_id company empleado_id : ℕ) (archivo : Archivo) (row : Documento) (s s' : Legajo)
    (k : Stored new_id company empleado_id archivo row s s')
    (fresh : find_first (λ (d : Documento). d.id == new_id) s.db.documentos ≡ none) where
  found : find_first (λ (d : Documento). d.id == new_id) s'.db.documentos ≡ some row
  found =
      let docs = k.documentos in
      let id = k.id in
      rw docs (
        find_first-or_new (λ (d : Documento). d.id == new_id) row s.db.documentos
        ∙ rw fresh (ground arith))

  Stored-open_document :
      open_document company empleado_id new_id s' ≡ ok (archivo.bytes, row.tipo_mime, row.nombre)
  unfolding open_document
  Stored-open_document =
      let there = found in
      let company_is = k.empresa in
      let worker_is = k.empleado in
      let below = k.below in
      let file : read_bytes row.ruta_privada s'.disk ≡ some archivo.bytes =
        rw k.disk (rw (same_ruta_self row.ruta_privada) refl) in
      ground arith

  Stored-refused :
      (c w : ℕ)
      → (company == c && empleado_id == w) ≡ false
      → open_document c w new_id s' ≡ err (http 404 "Documento no encontrado")
  unfolding open_document
  Stored-refused c w other =
      let there = found in let company_is = k.empresa in let worker_is = k.empleado in ground arith

own_employee-same :
    (user : User) (db db' : PersonalDb)
    → db'.trabajadores ≡ db.trabajadores
    → own_employee user db' ≡ own_employee user db
unfolding own_employee
own_employee-same user db db' same = rw same refl

-- A file that a worker stores, under an identifier that no row has, is given back to the worker with its
-- bytes, under the name and the format of its row, by the next download. An account whose worker is another
-- one, or of another company, is told that there is no such file.
pub upload_own_document-private :
    (user other : User) (new_id file_id company : ℕ) (worker : Trabajador) (c : ℕ) (w : Trabajador)
    (archivo : Archivo) (row : Documento) (s s' : Legajo)
    → upload_own_document user new_id file_id archivo s ≡ ok (row, s')
    → find_first (λ (d : Documento). d.id == new_id) s.db.documentos ≡ none
    → own_employee user s.db ≡ ok (company, worker)
    → own_employee other s.db ≡ ok (c, w)
    → (company == c && worker.id == w.id) ≡ false
    → (download_own_document user row.id s' ≡ ok (archivo.bytes, row.tipo_mime, row.nombre))
      × (download_own_document other row.id s' ≡ err (http 404 "Documento no encontrado"))
unfolding upload_own_document download_own_document
upload_own_document-private user other new_id file_id company worker c w archivo row s s' done fresh
      mine theirs apart =
    let stored : store_document new_id file_id company worker.id licencia_medica archivo s
        ≡ ok (row, s') =
      ground arith in
    let k =
      store_document-Stored new_id file_id company worker.id licencia_medica archivo row s s'
        stored in
    let still_mine = own_employee-same user s.db s'.db k.trabajadores ∙ mine in
    let still_theirs = own_employee-same other s.db s'.db k.trabajadores ∙ theirs in
    let opens = Stored-open_document new_id company worker.id archivo row s s' k fresh in
    let refused = Stored-refused new_id company worker.id archivo row s s' k fresh c w.id apart in
    rw k.id (ground arith, ground arith)
