-- ===== src/Reclutamiento/Cupos/Again.antt =====
-- A hiring request that is sent again.
use backend_ssas_rrhh.Base.{
  ℕ, ◌≡◌, refl, sym, ap, ◌∙◌, inl, inr, true, ◌&&◌, none, some, String, ◌==◌, str_eq, eq_iff,
  find_first, ok, arith, Option-cases, Outcome-cases, Bool-cases, ==_iff,
}
use mathlib.Core.Path.{subst}
use backend_ssas_rrhh.Reclutamiento.Rows.{
  Vacante, Postulacion, Empleado, ReclutamientoDb, is_contratada,
}
use backend_ssas_rrhh.Reclutamiento.Lookup.{
  find_key, in_company, applicant_in_company, postulacion, vacante,
}
use backend_ssas_rrhh.Reclutamiento.Contratacion.{
  ContratarRequest, vacante_key, postulacion_key, empleado_key, with_empleado, close_if_full,
  ya_contratada, nueva_contratacion, contratar,
}
use backend_ssas_rrhh.Reclutamiento.Keys.{
  find_first-update_key, find_first-or_new, or_raise-found, find_key-found,
}
use backend_ssas_rrhh.Reclutamiento.Cupos.{vacancy_of, hires}
use backend_ssas_rrhh.Reclutamiento.Cupos.Hiring.{
  post_missing, v_missing, nueva_contratacion-Hire, Hire-vacancy,
}

-- Everything that the second request reads of the first one.
record Left (empresa post_id : ℕ) (x : ContratarRequest) (row : Empleado) (db' : ReclutamientoDb)
    : Type 0 where
  pub post : Postulacion
  pub v : Vacante
  pub application : postulacion empresa db' post_id ≡ ok post
  pub vacancy : vacante empresa db' post.vacante_id ≡ ok v
  pub contracted : is_contratada post.estado ≡ true
  pub employee : post.empleado_id ≡ some row.id
  pub found : find_key empleado_key row.id (λ e. e.empresa_id == empresa) db'.empleados ≡ some row
  pub same_code : str_eq row.codigo x.codigo ≡ true

module _ (lower casefold : String → String) (empresa post_id : ℕ) (x : ContratarRequest)
    (row : Empleado) (db' : ReclutamientoDb) where
  Left-contratar :
      (now new_id : ℕ)
      → Left empresa post_id x row db'
      → contratar lower casefold empresa now new_id post_id x db' ≡ ok (row, db')
  unfolding contratar ya_contratada
  Left-contratar now new_id l =
      let application = l.application in
      let vacancy = l.vacancy in
      let contracted = l.contracted in
      let employee = l.employee in
      let found = l.found in let same_code = l.same_code in ground arith

already-Left :
    (empresa post_id : ℕ) (x : ContratarRequest) (row : Empleado) (post : Postulacion) (v : Vacante)
    (empleado_id : ℕ) (db db' : ReclutamientoDb)
    → postulacion empresa db post_id ≡ ok post
    → vacante empresa db post.vacante_id ≡ ok v
    → is_contratada post.estado ≡ true
    → post.empleado_id ≡ some empleado_id
    → ya_contratada empresa x empleado_id db ≡ ok (row, db')
    → Left empresa post_id x row db'
unfolding ya_contratada
already-Left empresa post_id x row post v empleado_id db db' got_post got_v done there returned =
    elim (Option-cases
      (find_key empleado_key empleado_id (λ e. e.empresa_id == empresa) db.empleados)) [
        | inl missing ↦ ground arith
        | inr (e, found) ↦
            let same_db : db ≡ db' = ground arith in
            let same : e ≡ row = ground arith in
            let key =
              find_key-found empleado_key empleado_id (λ e. e.empresa_id == empresa) db.empleados
                found in
            let row_id : row.id ≡ empleado_id = ap (λ (r : Empleado). r.id) (sym same) ∙ key.1 in
            let at_id = found ∙ ap some same in
            subst (Left empresa post_id x row) same_db (record {
              post = post;
              v = v;
              application = got_post;
              vacancy = got_v;
              contracted = done;
              employee = there ∙ ap some (sym row_id);
              found =
                  subst
                    (λ i.
                      find_key empleado_key i (λ e. e.empresa_id == empresa) db.empleados
                      ≡ some row)
                    (sym row_id) at_id;
              same_code = ground arith;
            })
      ]

eq_self : (s : String) → str_eq s s ≡ true
eq_self s = (eq_iff s s).1 refl

new-Left :
    (lower casefold : String → String) (empresa now new_id post_id : ℕ) (post : Postulacion)
    (v : Vacante) (x : ContratarRequest) (row : Empleado) (db db' : ReclutamientoDb)
    → find_first (λ e. empleado_key e == new_id) db.empleados ≡ none
    → postulacion empresa db post_id ≡ ok post
    → vacante empresa db post.vacante_id ≡ ok v
    → nueva_contratacion lower casefold empresa now new_id post v x db ≡ ok (row, db')
    → Left empresa post_id x row db'
unfolding nueva_contratacion
new-Left lower casefold empresa now new_id post_id post v x row db db' fresh got_post got_v
      returned =
    let h =
      nueva_contratacion-Hire lower casefold empresa now new_id post_id post v x row db db' got_post
        got_v returned in
    let id : row.id ≡ new_id = ground arith in
    let code : row.codigo ≡ x.codigo = ground arith in
    let company : row.empresa_id ≡ empresa = ground arith in
    let after : Postulacion = with_empleado row.id h.etapa_id now post in
    let closed : Vacante = close_if_full now (hires v.id db.postulaciones) v in
    let v_row =
      or_raise-found vacante_key post.vacante_id (λ w. w.empresa_id == empresa) db.vacantes
        v_missing got_v in
    let post_row =
      or_raise-found postulacion_key post_id
        (λ p. in_company empresa db p && applicant_in_company empresa db p) db.postulaciones
        post_missing got_post in
    let own = v_row.2 in
    let vacancy_row : vacancy_of post.vacante_id db'.vacantes ≡ some closed =
      subst (λ i. vacancy_of i db'.vacantes ≡ some closed) (sym h.for_vacancy)
        (Hire-vacancy now post_id post v row db db' h) in
    let still_own : (closed.empresa_id == empresa) ≡ true = ground arith in
    let seen : find_key vacante_key post.vacante_id (λ w. w.empresa_id == empresa) db'.vacantes
        ≡ some closed =
      rw (vacancy_row, still_own) refl in
    let admitted = post_row.2 in
    let applicants : db'.postulantes ≡ db.postulantes = ground arith in
    let applicant : applicant_in_company empresa db post ≡ true = ground arith in
    let still_applicant : applicant_in_company empresa db' after ≡ true = rw applicants applicant in
    let placed : in_company empresa db' after ≡ true = rw seen refl in
    let application_row : find_first (λ p. postulacion_key p == post_id) db'.postulaciones
        ≡ some after =
      rw
        (
          h.posts,
          find_first-update_key postulacion_key post_id (with_empleado row.id h.etapa_id now)
              (λ p. refl) db.postulaciones,
          h.application,
        )
        refl in
    let own_row : (row.empresa_id == empresa) ≡ true =
      grind (arith, ==_iff row.empresa_id empresa) in
    let self : (row.id == row.id) ≡ true = grind (arith, ==_iff row.id row.id) in
    let none_before : find_first (λ e. empleado_key e == row.id) db.empleados ≡ none =
      rw id fresh in
    record {
      post = after;
      v = closed;
      application = rw (application_row, placed, still_applicant) refl;
      vacancy = rw seen refl;
      contracted = refl;
      employee = refl;
      found =
          rw
            (
              h.employees,
              find_first-or_new (λ e. empleado_key e == row.id) row db.empleados,
              none_before,
              self,
              own_row,
            )
            refl;
      same_code = rw code (eq_self x.codigo);
    }

-- A hiring request that is sent again after it returned, by any later time and with any new id, gives
-- the same employee and changes nothing, if no employee had the id that the first one gave.
pub contratar-again :
    (lower casefold : String → String) (empresa now new_id post_id : ℕ) (x : ContratarRequest)
    (row : Empleado) (db db' : ReclutamientoDb) (later other_id : ℕ)
    → find_first (λ e. empleado_key e == new_id) db.empleados ≡ none
    → contratar lower casefold empresa now new_id post_id x db ≡ ok (row, db')
    → contratar lower casefold empresa later other_id post_id x db' ≡ ok (row, db')
unfolding contratar
contratar-again lower casefold empresa now new_id post_id x row db db' later other_id fresh
      returned =
    elim (Outcome-cases (postulacion empresa db post_id)) [
      | inr (e, failed) ↦ ground arith
      | inl (post, got_post) ↦ elim (Outcome-cases (vacante empresa db post.vacante_id)) [
        | inr (e, failed) ↦ ground arith
        | inl (v, got_v) ↦
            Left-contratar lower casefold empresa post_id x row db' later other_id
              (elim (Bool-cases (is_contratada post.estado)) [
                | inr waiting ↦
                    new-Left lower casefold empresa now new_id post_id post v x row db db' fresh
                      got_post got_v (ground arith)
                | inl done ↦ elim (Option-cases post.empleado_id) [
                  | inr (empleado_id, there) ↦
                      already-Left empresa post_id x row post v empleado_id db db' got_post got_v
                        done there (ground arith)
                  | inl missing ↦
                      new-Left lower casefold empresa now new_id post_id post v x row db db' fresh
                        got_post got_v (ground arith)
                ]
              ])
      ]
    ]
