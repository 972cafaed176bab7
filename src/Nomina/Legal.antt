-- ===== src/Nomina/Legal.antt =====
-- Legal rates and the minimum wage: `create_minimum_wage`, `create_legal_rate`, `legal_rates` and
-- `minimum_wage` of src/ssas/personal/infrastructure/http/payroll_router.py.
use backend_ssas_rrhh.Base.{
  ℕ, Bool, not, ◌&&◌, Option, none, some, List, [], ◌∷◌, String, str_eq, member, ltb, leb, ◌==◌,
  is_some, any, find_first, where_rows, add_row, Outcome, ok, ◌>>=◌, ◌>>◌, raise_if, or_raise,
  if◌then◌else◌,
}
use backend_ssas_rrhh.Base.Int.{ℤ, pos}
use backend_ssas_rrhh.Money.{positive}
use backend_ssas_rrhh.Session.{Handler}
use backend_ssas_rrhh.Payroll.Calc.{Amounts, lookup, truthy}
use backend_ssas_rrhh.Nomina.Rows.{
  HttpException, http, NominaError, ParametroLegal, ParametroValor, NominaDb,
}

-- `{row[6] for row in SEED_RULES if row[6]}`
abbrev pub seed_parameters : List String
seed_parameters =
    "AFP_LABORAL_BO" ∷ "SOLIDARIO_LABORAL_BO" ∷ "CNS_PATRONAL_BO" ∷ "VIVIENDA_PATRONAL_BO"
    ∷ "RIESGO_PATRONAL_BO" ∷ "SOLIDARIO_PATRONAL_BO" ∷ []

-- `LegalRateInput` and `MinimumWageInput`, whose amount is `porcentaje` and `monto`.
pub record LegalValueInput : Type 0 where
  pub vigente_desde : ℕ
  pub vigente_hasta : ℕ
  pub amount : ℕ
  pub norma_legal : String

-- The value is of the parameter, and its period meets the one of the request.
abbrev pub overlaps : ℕ → LegalValueInput → ParametroValor → Bool
overlaps parametro_id x v =
    v.parametro_id == parametro_id
    && leb v.vigente_desde x.vigente_hasta
    && leb x.vigente_desde v.vigente_hasta

abbrev pub catalog_of : String → NominaDb → Option ParametroLegal
catalog_of codigo db = find_first (λ p. str_eq p.codigo codigo) db.parametros

abbrev pub new_value : ℕ → ℕ → String → LegalValueInput → ParametroValor
new_value new_id parametro_id key x = record {
  id = new_id;
  parametro_id = parametro_id;
  valor = (key, pos x.amount) ∷ [];
  vigente_desde = x.vigente_desde;
  vigente_hasta = x.vigente_hasta;
  norma_legal = some x.norma_legal;
}

-- The common part of the two endpoints; `repeated` is what an overlap is answered with.
unfoldable pub add_value :
    String → String → String → ℕ → LegalValueInput → Handler NominaDb HttpException ParametroValor
add_value codigo key repeated new_id x db = do
  raise_if (ltb x.vigente_hasta x.vigente_desde) (http 422 "Vigencia invalida")
  catalog ← or_raise (catalog_of codigo db) (http 409 "El catalogo legal aun no fue migrado")
  raise_if (is_some (find_first (overlaps catalog.id x) db.valores)) (http 409 repeated)
  ok (
    new_value new_id catalog.id key x,
    record db { valores = add_row (new_value new_id catalog.id key x) db.valores },
  )

unfoldable pub create_minimum_wage :
    ℕ → LegalValueInput → Handler NominaDb HttpException ParametroValor
create_minimum_wage = add_value "SMN_BO" "monto" "Ya existe salario minimo para ese intervalo"

unfoldable pub create_legal_rate :
    String → ℕ → LegalValueInput → Handler NominaDb HttpException ParametroValor
create_legal_rate codigo new_id x db = do
  raise_if (not (member codigo seed_parameters)) (http 404 "Concepto legal no disponible")
  add_value codigo "porcentaje" "Ya existe una tasa para ese intervalo" new_id x db

-- The value is of the code, and in force from the first day of the month to the last one.
abbrev pub is_in_force : NominaDb → String → ℕ → ℕ → ParametroValor → Bool
is_in_force db code first cutoff v =
    any (λ (p : ParametroLegal). p.id == v.parametro_id && str_eq p.codigo code) db.parametros
    && leb v.vigente_desde first
    && leb cutoff v.vigente_hasta

-- `len(values) == 1`, with a legal norm.
abbrev pub the_value : List ParametroValor → Option ParametroValor
the_value [] = none
the_value (v ∷ []) = if is_some (truthy v.norma_legal) then some v else none
the_value (v ∷ w ∷ vs) = none

unfoldable pub legal_rate : NominaDb → ℕ → ℕ → String → Outcome NominaError ℤ
legal_rate db first cutoff code = do
  v ←
      or_raise (the_value (where_rows (is_in_force db code first cutoff) db.valores))
        (NominaError.sin_vigencia_unica code)
  or_raise (lookup "porcentaje" v.valor) (NominaError.sin_porcentaje code)

-- `legal_rates`: one entry for each code.
unfoldable pub legal_rates : NominaDb → ℕ → ℕ → List String → Outcome NominaError Amounts
legal_rates db first cutoff [] = ok []
legal_rates db first cutoff (code ∷ codes) = do
  rate ← legal_rate db first cutoff code
  rates ← legal_rates db first cutoff codes
  ok ((code, rate) ∷ rates)

unfoldable pub minimum_wage : NominaDb → ℕ → ℕ → Outcome NominaError ℕ
minimum_wage db first cutoff = do
  v ←
      or_raise (the_value (where_rows (is_in_force db "SMN_BO" first cutoff) db.valores))
        NominaError.smn_sin_vigencia_unica
  raw ← or_raise (lookup "monto" v.valor) NominaError.smn_invalido
  or_raise (positive raw) NominaError.smn_invalido
