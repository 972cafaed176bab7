-- ===== src/Nomina/Lookup.antt =====
-- A legal rate that was created is the one that a payroll of a month in its period finds.
use backend_ssas_rrhh.Base.{
  ℕ, ◌≤◌, ◌≡◌, refl, sym, ◌∙◌, Bool, true, false, ◌&&◌, some, List, [], ◌∷◌, String, str_eq, eq_iff,
  ◌==◌, is_some, any, All, find_first, where_rows, add_row, ok, arith,
}
use backend_ssas_rrhh.Base.Int.{pos}
use backend_ssas_rrhh.Payroll.Calc.{lookup}
use backend_ssas_rrhh.Nomina.Rows.{ParametroLegal, ParametroValor, NominaDb}
use backend_ssas_rrhh.Nomina.Legal.{
  LegalValueInput, overlaps, catalog_of, new_value, create_legal_rate, is_in_force, legal_rate,
}
use backend_ssas_rrhh.Nomina.Rates.{add_value-Created, add_value-of_rate}

-- The code has one entry in the catalogue.
abbrev pub OneEntry : String → ℕ → List ParametroLegal → Type 0
OneEntry code k = All (λ (p : ParametroLegal). p.codigo ≡ code → p.id ≡ k)

abbrev entry : ℕ → String → ParametroLegal → Bool
entry k code p = p.id == k && str_eq p.codigo code

entry-OneEntry :
    (k c : ℕ) (code : String) (ps : List ParametroLegal)
    → OneEntry code c ps
    → any (entry k code) ps ≡ true
    → k ≡ c
entry-OneEntry k c code [] one found = cc
entry-OneEntry k c code (p ∷ ps) (one, more) found =
    ground (arith, one, eq_iff p.codigo code, entry-OneEntry k c code ps more)

find_first-entry :
    (code : String) (ps : List ParametroLegal) (c : ParametroLegal)
    → find_first (λ (p : ParametroLegal). str_eq p.codigo code) ps ≡ some c
    → any (entry c.id code) ps ≡ true
find_first-entry code [] c found = cc
find_first-entry code (p ∷ ps) c found = ground (arith, find_first-entry code ps c)

some_injective : {a b : ParametroLegal} → some a ≡ some b → a ≡ b
some_injective e = cc

module _ (db : NominaDb) (code : String) (first cutoff : ℕ) where
  -- No earlier value of the code is in force in a month that the new period covers.
  no_earlier :
      (c : ℕ) (x : LegalValueInput) (vs : List ParametroValor)
      → OneEntry code c db.parametros
      → first ≤ cutoff
      → x.vigente_desde ≤ first
      → cutoff ≤ x.vigente_hasta
      → is_some (find_first (overlaps c x) vs) ≡ false
      → where_rows (is_in_force db code first cutoff) vs ≡ []
  no_earlier c x [] one month from until free = refl
  no_earlier c x (v ∷ vs) one month from until free = ground (
    arith,
    entry-OneEntry v.parametro_id c code db.parametros one,
    no_earlier c x vs one month from until,
  )

  where_rows-add_row :
      (r : ParametroValor) (vs : List ParametroValor)
      → where_rows (is_in_force db code first cutoff) vs ≡ []
      → is_in_force db code first cutoff r ≡ true
      → where_rows (is_in_force db code first cutoff) (add_row r vs) ≡ r ∷ []
  where_rows-add_row r [] none_there new = rw new refl
  where_rows-add_row r (v ∷ vs) none_there new = ground (arith, where_rows-add_row r vs)

  only_new :
      (c : ParametroLegal) (new_id : ℕ) (key : String) (x : LegalValueInput)
      → catalog_of code db ≡ some c
      → OneEntry code c.id db.parametros
      → first ≤ cutoff
      → x.vigente_desde ≤ first
      → cutoff ≤ x.vigente_hasta
      → is_some (find_first (overlaps c.id x) db.valores) ≡ false
      → where_rows
          (is_in_force db code first cutoff)
          (add_row (new_value new_id c.id key x) db.valores)
        ≡ new_value new_id c.id key x ∷ []
  only_new c new_id key x known one month from until free =
      where_rows-add_row (new_value new_id c.id key x) db.valores
        (no_earlier c.id x db.valores one month from until free)
        (rw (find_first-entry code db.parametros c known) (ground arith))

-- A legal rate that was created is found for every month that its period covers, if its code has one
-- entry in the catalogue and its norm is not empty.
pub create_legal_rate-legal_rate :
    (codigo : String) (new_id : ℕ) (x : LegalValueInput) (row : ParametroValor) (db db' : NominaDb)
    (c : ParametroLegal)
    → catalog_of codigo db ≡ some c
    → OneEntry codigo c.id db.parametros
    → str_eq x.norma_legal "" ≡ false
    → create_legal_rate codigo new_id x db ≡ ok (row, db')
    → (first cutoff : ℕ) → first ≤ cutoff
    → x.vigente_desde ≤ first
    → cutoff ≤ x.vigente_hasta
    → legal_rate db' first cutoff codigo ≡ ok (pos x.amount)
unfolding legal_rate lookup
create_legal_rate-legal_rate codigo new_id x row db db' c known one norm done first cutoff month
      from until =
    let made =
      add_value-Created codigo _ _ new_id x row db db'
        (add_value-of_rate codigo new_id x row db db' done) in
    let same = some_injective (sym made.known ∙ known) in
    rw
      (
        made.tables,
        same,
        only_new db codigo first cutoff c new_id "porcentaje" x known one month from until
            (rw (sym same) made.free),
        norm,
      )
      refl
