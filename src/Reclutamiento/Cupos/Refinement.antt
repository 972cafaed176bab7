-- ===== src/Reclutamiento/Cupos/Refinement.antt =====
-- A vacancy as a count of free places, and the hiring as taking one of them.
use backend_ssas_rrhh.Base.{
  ℕ, ◌-◌, ◌≡◌, refl, inl, inr, ◌⊎◌, Bool, true, false, ◌||◌, Option, none, some, String, ◌==◌, ltb,
  ok, arith, if◌then◌else◌, Bool-cases, ==_iff,
}
use mathlib.Core.Path.{subst}
use backend_ssas_rrhh.Reclutamiento.Rows.{
  Vacante, Postulacion, Empleado, ReclutamientoDb, is_cerrada,
}
use backend_ssas_rrhh.Reclutamiento.Contratacion.{ContratarRequest, contratar}
use backend_ssas_rrhh.Reclutamiento.Cupos.{vacancy_of, hires}
use backend_ssas_rrhh.Reclutamiento.Cupos.Hiring.{
  Hire, contratar-Hire, Hire-hires, Hire-hires_other, Hire-vacancy, Hire-vacancy_other,
}

-- What a vacancy promises: its free places, until it is closed.
pub record Cupo : Type 0 where
  pub libres : ℕ
  pub cerrada : Bool

abbrev pub cupo_row : Option Vacante → ℕ → Option Cupo
cupo_row none hired = none
cupo_row (some v) hired =
    some (record { libres = v.cantidad_vacantes - hired; cerrada = is_cerrada v.estado })

-- The vacancies of the database, each as its free places.
unfoldable pub cupos : ReclutamientoDb → ℕ → Option Cupo
cupos db id = cupo_row (vacancy_of id db.vacantes) (hires id db.postulaciones)

-- One place is taken, and the last one closes the vacancy.
abbrev pub ocupar_cupo : Option Cupo → Option Cupo
ocupar_cupo none = none
ocupar_cupo (some c) = some (record { libres = c.libres - 1; cerrada = c.libres == 1 || c.cerrada })

unfoldable pub ocupar : ℕ → (ℕ → Option Cupo) → ℕ → Option Cupo
ocupar vacante_id before id = if vacante_id == id then ocupar_cupo (before id) else before id

-- There is a place left.
abbrev pub has_room : Option Cupo → Bool
has_room none = false
has_room (some c) = ltb 0 c.libres

Hire-ocupar :
    (now post_id : ℕ) (post : Postulacion) (v : Vacante) (row : Empleado) (db db' : ReclutamientoDb)
    → Hire now post_id post v row db db'
    → (id : ℕ) → cupos db' id ≡ ocupar v.id (cupos db) id
unfolding cupos ocupar
Hire-ocupar now post_id post v row db db' h id = elim (Bool-cases (v.id == id)) [
  | inl same ↦
      let same_id : v.id ≡ id = grind (arith, ==_iff v.id id) in
      let room = h.room in
      let hiring = h.hiring in
      let here : cupo_row (vacancy_of v.id db'.vacantes) (hires v.id db'.postulaciones)
          ≡ ocupar_cupo (cupo_row (vacancy_of v.id db.vacantes) (hires v.id db.postulaciones)) =
        rw
          (
            Hire-vacancy now post_id post v row db db' h,
            Hire-hires now post_id post v row db db' h,
            h.vacancy,
          )
          (ground arith) in
      rw same (
        subst
          (λ i.
            cupo_row (vacancy_of i db'.vacantes) (hires i db'.postulaciones)
            ≡ ocupar_cupo (cupo_row (vacancy_of i db.vacantes) (hires i db.postulaciones)))
          same_id here)
  | inr apart ↦
      rw
        (
          apart,
          Hire-vacancy_other now post_id post v row db db' id h apart,
          Hire-hires_other now post_id post v row db db' id h apart,
        )
        refl
]

-- A hiring request that returns refines the count of free places: it leaves the database as it was,
-- or there was a place left in one vacancy, of which exactly one is taken, the last one closing it,
-- while every other vacancy keeps its places.
pub contratar-refines :
    (lower casefold : String → String) (empresa now new_id post_id : ℕ) (x : ContratarRequest)
    (row : Empleado) (db db' : ReclutamientoDb)
    → contratar lower casefold empresa now new_id post_id x db ≡ ok (row, db')
    → (db' ≡ db)
      ⊎ ((vacante_id : ℕ) × (has_room (cupos db vacante_id) ≡ true)
          × ((id : ℕ) → cupos db' id ≡ ocupar vacante_id (cupos db) id))
unfolding cupos
contratar-refines lower casefold empresa now new_id post_id x row db db' returned =
    elim (contratar-Hire lower casefold empresa now new_id post_id x row db db' returned) [
      | inl same ↦ inl same
      | inr (post, v, h) ↦
          let room = h.room in
          let left : has_room (cupo_row (some v) (hires v.id db.postulaciones)) ≡ true =
            ground arith in
          inr (v.id, rw h.vacancy left, Hire-ocupar now post_id post v row db db' h)
    ]
