-- ===== src/Nomina/Rates.antt =====
-- The values of a legal parameter do not overlap, and a rate that was created is the one found.
use backend_ssas_rrhh.Base.{
  ℕ, ◌≤◌, ◌<◌, ◌≡◌, ◌⊎◌, inl, inr, false, some, List, [], ◌∷◌, String, is_some, All, All-append,
  find_first, add_row, Option-cases, ok, arith,
}
use backend_ssas_rrhh.Nomina.Rows.{ParametroLegal, ParametroValor, NominaDb}
use backend_ssas_rrhh.Nomina.Legal.{
  LegalValueInput, overlaps, catalog_of, new_value, add_value, create_legal_rate,
}

-- Two values of one parameter are never in force on the same day.
abbrev pub Apart : ParametroValor → ParametroValor → Type 0
Apart v w =
    v.parametro_id ≡ w.parametro_id
    → (v.vigente_hasta < w.vigente_desde) ⊎ (w.vigente_hasta < v.vigente_desde)

abbrev pub AllApart : List ParametroValor → Type 0
AllApart [] = Unit
AllApart (v ∷ vs) = All (Apart v) vs × AllApart vs

-- What the endpoints keep of the table.
pub record WellKept (db : NominaDb) : Type 0 where
  pub apart : AllApart db.valores
  pub ordered : All (λ (v : ParametroValor). v.vigente_desde ≤ v.vigente_hasta) db.valores

free_both :
    (parametro_id : ℕ) (x : LegalValueInput) (v : ParametroValor) (vs : List ParametroValor)
    → is_some (find_first (overlaps parametro_id x) (v ∷ vs)) ≡ false
    → (overlaps parametro_id x v ≡ false)
      × (is_some (find_first (overlaps parametro_id x) vs) ≡ false)
free_both parametro_id x v vs free = ground arith

Apart-new :
    (parametro_id new_id : ℕ) (key : String) (x : LegalValueInput) (v : ParametroValor)
    → overlaps parametro_id x v ≡ false
    → Apart v (new_value new_id parametro_id key x)
Apart-new parametro_id new_id key x v free same = grind (arith, free, same)

AllApart-new :
    (parametro_id new_id : ℕ) (key : String) (x : LegalValueInput) (vs : List ParametroValor)
    → is_some (find_first (overlaps parametro_id x) vs) ≡ false
    → AllApart vs
    → AllApart (add_row (new_value new_id parametro_id key x) vs)
AllApart-new parametro_id new_id key x [] free apart = (tt, tt)
AllApart-new parametro_id new_id key x (v ∷ vs) free (away, apart) =
    let (here, rest) = free_both parametro_id x v vs free in
    (
      All-append (Apart v) vs _ (away, (Apart-new parametro_id new_id key x v here, tt)),
      AllApart-new parametro_id new_id key x vs rest apart,
    )

-- What a creation writes: the period is in order, and meets no other period of the parameter.
pub record Created (codigo key : String) (new_id : ℕ) (x : LegalValueInput) (row : ParametroValor)
    (db db' : NominaDb) : Type 0 where
  pub catalog : ParametroLegal
  pub known : catalog_of codigo db ≡ some catalog
  pub in_order : x.vigente_desde ≤ x.vigente_hasta
  pub free : is_some (find_first (overlaps catalog.id x) db.valores) ≡ false
  pub row_is : row ≡ new_value new_id catalog.id key x
  pub tables : db' ≡ record db { valores = add_row (new_value new_id catalog.id key x) db.valores }

pub add_value-Created :
    (codigo key repeated : String) (new_id : ℕ) (x : LegalValueInput) (row : ParametroValor)
    (db db' : NominaDb)
    → add_value codigo key repeated new_id x db ≡ ok (row, db')
    → Created codigo key new_id x row db db'
unfolding add_value
add_value-Created codigo key repeated new_id x row db db' done =
    elim (Option-cases (catalog_of codigo db)) [
      | inl absent ↦ ground arith
      | inr (p, known) ↦ record {
        catalog = p;
        known = known;
        in_order = ground arith;
        free = ground arith;
        row_is = ground arith;
        tables = ground arith;
      }
    ]

-- A value that is added keeps the table.
add_value-WellKept :
    (codigo key repeated : String) (new_id : ℕ) (x : LegalValueInput) (row : ParametroValor)
    (db db' : NominaDb)
    → WellKept db
    → add_value codigo key repeated new_id x db ≡ ok (row, db')
    → WellKept db'
add_value-WellKept codigo key repeated new_id x row db db' kept done =
    let made = add_value-Created codigo key repeated new_id x row db db' done in
    rw made.tables (record {
      apart = AllApart-new made.catalog.id new_id key x db.valores made.free kept.apart;
      ordered = All-append _ db.valores _ (kept.ordered, (made.in_order, tt));
    })

pub add_value-of_rate :
    (codigo : String) (new_id : ℕ) (x : LegalValueInput) (row : ParametroValor) (db db' : NominaDb)
    → create_legal_rate codigo new_id x db ≡ ok (row, db')
    → add_value codigo "porcentaje" "Ya existe una tasa para ese intervalo" new_id x db
      ≡ ok (row, db')
unfolding create_legal_rate
add_value-of_rate codigo new_id x row db db' done = ground arith

-- A legal rate that is created keeps the table.
pub create_legal_rate-WellKept :
    (codigo : String) (new_id : ℕ) (x : LegalValueInput) (row : ParametroValor) (db db' : NominaDb)
    → WellKept db
    → create_legal_rate codigo new_id x db ≡ ok (row, db')
    → WellKept db'
create_legal_rate-WellKept codigo new_id x row db db' kept done =
    add_value-WellKept codigo _ _ new_id x row db db' kept
      (add_value-of_rate codigo new_id x row db db' done)
