-- ===== src/Reclutamiento/Agenda.antt =====
-- The agenda of the interviewers: which interviews clash, and what one request does to the table.
pub mod Edits
pub mod Bookings
pub mod Runs
pub mod Final
use backend_ssas_rrhh.Base.{
  ℕ, ◌+◌, ◌≡◌, refl, sym, inl, inr, Bool, true, false, not, ◌&&◌, ◌||◌, Option, none, some, List,
  ◌==◌, ltb, find_first, add_row, arith, Bool-cases, Option-cases, ==_iff, find_first-passes,
}
use mathlib.Core.Path.{subst}
use backend_ssas_rrhh.Reclutamiento.Rows.{Entrevista, is_pendiente}
use backend_ssas_rrhh.Reclutamiento.Lookup.{update_key}
use backend_ssas_rrhh.Reclutamiento.Entrevistas.{duracion, entrevista_key}
use backend_ssas_rrhh.Reclutamiento.Keys.{
  applied?, find_first-update_key, find_first-update_key_other, find_first-or_new, or_new,
}

-- The end of an interview.
abbrev pub fin : Entrevista → ℕ
fin e = e.fecha_hora + duracion e.duracion_min

-- Two interviews that wait to be held take the same interviewer at the same time.
abbrev pub clash : Entrevista → Entrevista → Bool
clash a b =
    a.entrevistador_id == b.entrevistador_id
    && is_pendiente a.estado
    && is_pendiente b.estado
    && ltb a.fecha_hora (fin b)
    && ltb b.fecha_hora (fin a)

abbrev pub clash? : Option Entrevista → Option Entrevista → Bool
clash? none _ = false
clash? (some a) none = false
clash? (some a) (some b) = clash a b

abbrev pub interview_of : ℕ → List Entrevista → Option Entrevista
interview_of id rows = find_first (λ e. entrevista_key e == id) rows

-- No two interviews clash.
unfoldable pub NoClash : List Entrevista → Type 0
NoClash rows =
    (i j : ℕ) → ((i == j) || not (clash? (interview_of i rows) (interview_of j rows))) ≡ true

clash?-sym : (a b : Option Entrevista) → clash? a b ≡ clash? b a
clash?-sym none none = refl
clash?-sym none (some b) = refl
clash?-sym (some a) none = refl
clash?-sym (some a) (some b) = ground arith

-- The interview of the id is now `e`, the others are as they were.
pub record Placed (id : ℕ) (e : Entrevista) (rows rows' : List Entrevista) : Type 0 where
  pub here : interview_of id rows' ≡ some e
  pub others : (j : ℕ) → (id == j) ≡ false → interview_of j rows' ≡ interview_of j rows

pub Placed-update_key :
    (id : ℕ) (f : Entrevista → Entrevista) (rows : List Entrevista) {e : Entrevista}
    → ((x : Entrevista) → entrevista_key (f x) ≡ entrevista_key x)
    → interview_of id rows ≡ some e
    → Placed id (f e) rows (update_key entrevista_key id f rows)
Placed-update_key id f rows {e} kept found = record {
  here = rw (find_first-update_key entrevista_key id f kept rows, found) refl;
  others = λ j apart. find_first-update_key_other entrevista_key id f kept j rows apart;
}

pub Placed-add_row :
    (e : Entrevista) (rows : List Entrevista)
    → interview_of e.id rows ≡ none
    → Placed e.id e rows (add_row e rows)
Placed-add_row e rows fresh = record {
  here =
      let self : (e.id == e.id) ≡ true = grind (arith, ==_iff e.id e.id) in
      rw (find_first-or_new (λ r. entrevista_key r == e.id) e rows, fresh, self) refl;
  others = λ j apart.
      rw (find_first-or_new (λ r. entrevista_key r == j) e rows)
        (elim (Option-cases (interview_of j rows)) [
          | inl missing ↦ rw (missing, apart) refl
          | inr (b, found) ↦ rw found refl
        ]);
}

module _ (id : ℕ) (e : Entrevista) (rows rows' : List Entrevista) (placed : Placed id e rows rows')
    (free : NoClash rows)
    (clear : (j : ℕ) → (id == j) ≡ false → clash? (some e) (interview_of j rows) ≡ false) where
  against :
      (i j : ℕ)
      → (id == i) ≡ true
      → (i == j) ≡ false
      → clash? (interview_of i rows') (interview_of j rows') ≡ false
  against i j same apart =
      let same_id : id ≡ i = grind (arith, ==_iff id i) in
      let apart_id : (id == j) ≡ false = rw same_id apart in
      let one = subst (λ k. interview_of k rows' ≡ some e) same_id placed.here in
      rw (one, placed.others j apart_id) (clear j apart_id)

  -- The agenda stays free, where the row that was placed clashes with no other one.
  pub NoClash-Placed : NoClash rows'
  unfolding NoClash
  NoClash-Placed i j = elim (Bool-cases (i == j)) [
    | inl same ↦ rw same refl
    | inr apart ↦ elim (Bool-cases (id == i)) [
      | inl first ↦ rw (apart, against i j first apart) refl
      | inr not_first ↦ elim (Bool-cases (id == j)) [
        | inl second ↦
            let flipped : (j == i) ≡ false = ground arith in
            rw
              (
                apart,
                clash?-sym (interview_of i rows') (interview_of j rows'),
                against j i second flipped,
              )
              refl
        | inr not_second ↦
            let both = free i j in rw (placed.others i not_first, placed.others j not_second) both
      ]
    ]
  ]
