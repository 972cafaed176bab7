-- ===== src/Reclutamiento/Codigos.antt =====
-- The tracking codes of public applications: the search ends within its ten draws.
use backend_ssas_rrhh.Base.{
  ℕ, zero, suc, ◌+◌, ◌≡◌, ◌≤◌, ◌<◌, sym, ◌==◌, ==_iff, inl, inr, true, false, String, ok, arith,
  Bool-cases,
}
use backend_ssas_rrhh.Reclutamiento.Rows.{ReclutamientoDb}
use backend_ssas_rrhh.Reclutamiento.Publica.{codigo_exists, try_codes, generate_codigo}

-- The code was drawn at this number, and is in use by no application.
pub record Drawn (draw : ℕ → String) (db : ReclutamientoDb) (i limit : ℕ) (codigo : String)
    : Type 0 where
  pub at_draw : ℕ
  pub from : i ≤ at_draw
  pub below : at_draw < limit
  pub drawn : codigo ≡ draw at_draw
  pub unused : codigo_exists codigo db ≡ false

module _ (draw : ℕ → String) (db : ReclutamientoDb) where
  try_codes-Drawn :
      (tries i : ℕ) (codigo : String)
      → try_codes draw db tries i ≡ ok codigo
      → Drawn draw db i (i + tries) codigo
  unfolding try_codes
  try_codes-Drawn zero i codigo h = ground arith
  try_codes-Drawn (suc tries) i codigo h = elim (Bool-cases (codigo_exists (draw i) db)) [
    | inr unused ↦
        let same : draw i ≡ codigo = ground arith in
        record {
          at_draw = i;
          from = omega arith;
          below = omega arith;
          drawn = sym same;
          unused = rw (sym same) unused;
        }
    | inl used ↦
        let d = try_codes-Drawn tries (i + 1) codigo (ground arith) in
        record {
          at_draw = d.at_draw;
          from = omega (arith, d.from);
          below = omega (arith, d.below);
          drawn = d.drawn;
          unused = d.unused;
        }
  ]

  not_here :
      (i j : ℕ)
      → codigo_exists (draw i) db ≡ true
      → codigo_exists (draw j) db ≡ false
      → (i == j) ≡ false
  not_here i j used free = elim (Bool-cases (i == j)) [
    | inr apart ↦ apart
    | inl same ↦
        let same_id : i ≡ j = grind (arith, ==_iff i j) in
        let here : codigo_exists (draw i) db ≡ false = rw same_id free in ground arith
  ]

  -- One of the draws from `i` on is unused.
  try_codes-returns :
      (tries i j : ℕ)
      → i ≤ j
      → j < i + tries
      → codigo_exists (draw j) db ≡ false
      → (codigo : String) × (try_codes draw db tries i ≡ ok codigo)
  unfolding try_codes
  try_codes-returns zero i j low high free = ground arith
  try_codes-returns (suc tries) i j low high free = elim (Bool-cases (codigo_exists (draw i) db)) [
    | inr unused ↦ (draw i, ground arith)
    | inl used ↦
        let apart : (i == j) ≡ false = not_here i j used free in
        let later = try_codes-returns tries (i + 1) j (ground arith) (omega arith) free in
        (later.0, ground (arith, later.1))
  ]

  -- Where one of the ten draws is a code that no application has, the search returns one of the ten
  -- that no application has.
  pub generate_codigo-Drawn :
      (j : ℕ)
      → j < 10
      → codigo_exists (draw j) db ≡ false
      → (codigo : String) × (generate_codigo draw db ≡ ok codigo) × Drawn draw db 0 10 codigo
  unfolding generate_codigo
  generate_codigo-Drawn j low free =
      let found = try_codes-returns 10 0 j (omega arith) (omega arith) free in
      (found.0, found.1, try_codes-Drawn 10 0 found.0 found.1)
