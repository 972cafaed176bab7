-- ===== src/Personal/Versiones.antt =====
-- One version of a contract is in force, and an approved month keeps its terms.
use backend_ssas_rrhh.Base.{
  ℕ, ◌≡◌, ◌≤◌, refl, inl, inr, false, ◌&&◌, Option, List, [], ◌∷◌, ◌==◌, any, find_first, add_row,
  ok, arith, Bool-cases, Outcome-cases,
}
use mathlib.Core.Path.{subst}
use backend_ssas_rrhh.Reclutamiento.Lookup.{count}
use backend_ssas_rrhh.Reclutamiento.Keys.{count-add_row}
use backend_ssas_rrhh.Personal.Rows.{User, Contrato, PersonalDb, Calendario, user_tenant}
use backend_ssas_rrhh.Personal.Contratos.{
  ContractInput, update_first, vigente_of, is_paid, with_reemplazo, starts_late, check_contract,
  create_contract,
}

-- Every worker has at most one contract in force.
unfoldable pub SoleVigente : List Contrato → Type 0
SoleVigente rows = (company empleado_id : ℕ) → count (vigente_of company empleado_id) rows ≤ 1

-- The row that is replaced leaves, for its worker.
replaced_own :
    (c w inicio : ℕ) (rows : List Contrato)
    → count (vigente_of c w) rows ≤ 1
    → count (vigente_of c w) (update_first (vigente_of c w) (with_reemplazo inicio) rows) ≡ 0
replaced_own c w inicio [] sole = refl
replaced_own c w inicio (r ∷ rows) sole = ground (arith, replaced_own c w inicio rows)

-- Another worker keeps the contracts that are in force.
replaced_other :
    (c w c' w' inicio : ℕ) (rows : List Contrato)
    → ((c == c') && (w == w')) ≡ false
    → count (vigente_of c' w') (update_first (vigente_of c w) (with_reemplazo inicio) rows)
      ≡ count (vigente_of c' w') rows
replaced_other c w c' w' inicio [] apart = refl
replaced_other c w c' w' inicio (r ∷ rows) apart =
    ground (arith, replaced_other c w c' w' inicio rows apart)

-- What a call that returned did, for the company that it was about.
pub record Created (company today w : ℕ) (x : ContractInput) (cal : Calendario) (row : Contrato)
    (db db' : PersonalDb) : Type 0 where
  pub empresa : row.empresa_id ≡ company
  pub empleado : row.empleado_id ≡ w
  pub inicio : row.fecha_inicio ≡ x.fecha_inicio
  pub later : starts_late x (find_first (vigente_of company w) db.contratos) ≡ false
  pub unpaid : any (is_paid cal company w x.fecha_inicio) db.boletas_aprobadas ≡ false
  pub rows :
      db'.contratos
      ≡ add_row row
          (update_first (vigente_of company w) (with_reemplazo x.fecha_inicio) db.contratos)

pub create_contract-Created :
    (cal : Calendario) (user : User) (empresa_id : Option ℕ) (company today new_id w : ℕ)
    (x : ContractInput) (row : Contrato) (db db' : PersonalDb)
    → user_tenant user empresa_id ≡ ok company
    → create_contract cal user empresa_id today new_id w x db ≡ ok (row, db')
    → Created company today w x cal row db db'
unfolding create_contract check_contract
create_contract-Created cal user empresa_id company today new_id w x row db db' target returned =
    record {
      empresa = ground arith;
      empleado = ground arith;
      inicio = ground arith;
      later = ground arith;
      unpaid = ground arith;
      rows = ground arith;
    }

Created-SoleVigente :
    (company today w : ℕ) (x : ContractInput) (cal : Calendario) (row : Contrato)
    (db db' : PersonalDb)
    → Created company today w x cal row db db'
    → SoleVigente db.contratos
    → SoleVigente db'.contratos
unfolding SoleVigente
Created-SoleVigente company today w x cal row db db' made sole c k =
    let mid = update_first (vigente_of company w) (with_reemplazo x.fecha_inicio) db.contratos in
    let counted = count-add_row (vigente_of c k) row mid in
    let e = made.empresa in
    let l = made.empleado in
    rw made.rows (elim (Bool-cases ((company == c) && (w == k))) [
      | inr other ↦
          let same = replaced_other company w c k x.fecha_inicio db.contratos other in
          let before = sole c k in
          let not_row : vigente_of c k row ≡ false = ground arith in
          rw (counted, not_row) (omega (arith, same, before))
      | inl own ↦
          let same_c : company ≡ c = ground arith in
          let same_k : w ≡ k = ground arith in
          let gone = replaced_own company w x.fecha_inicio db.contratos (sole company w) in
          let gone_here : count (vigente_of c k) mid ≡ 0 =
            subst (λ j. count (vigente_of c j) mid ≡ 0) same_k
              (subst (λ i. count (vigente_of i w) mid ≡ 0) same_c gone) in
          elim (Bool-cases (vigente_of c k row)) [
            | inl hit ↦ rw (counted, hit) (omega (arith, gone_here))
            | inr miss ↦ rw (counted, miss) (omega (arith, gone_here))
          ]
    ])

-- Contracts one after another.
pub data ContractRun (cal : Calendario) : PersonalDb → PersonalDb → Type 0 where
  stay : (db : PersonalDb) → ContractRun cal db db
  then_contract :
      (db mid db' : PersonalDb) (user : User) (empresa_id : Option ℕ) (today new_id w : ℕ)
      (x : ContractInput) (row : Contrato)
      → create_contract cal user empresa_id today new_id w x db ≡ ok (row, mid)
      → ContractRun cal mid db'
      → ContractRun cal db db'

create_contract-SoleVigente :
    (cal : Calendario) (user : User) (empresa_id : Option ℕ) (today new_id w : ℕ)
    (x : ContractInput) (row : Contrato) (db db' : PersonalDb)
    → create_contract cal user empresa_id today new_id w x db ≡ ok (row, db')
    → SoleVigente db.contratos
    → SoleVigente db'.contratos
unfolding create_contract
create_contract-SoleVigente cal user empresa_id today new_id w x row db db' returned sole =
    elim (Outcome-cases (user_tenant user empresa_id)) [
      | inr (e, failed) ↦ ground arith
      | inl (company, target) ↦
          Created-SoleVigente company today w x cal row db db'
            (create_contract-Created cal user empresa_id company today new_id w x row db db' target
              returned)
            sole
    ]

-- However many versions of contracts are registered, for whatever workers, no worker comes to have two
-- contracts in force, where none had at the start.
pub ContractRun-SoleVigente :
    (cal : Calendario) (db db' : PersonalDb)
    → SoleVigente db.contratos
    → ContractRun cal db db'
    → SoleVigente db'.contratos
ContractRun-SoleVigente cal db _ sole (stay _) = sole
ContractRun-SoleVigente cal db db' sole (then_contract _ mid _ user e today n w x row one more) =
    ContractRun-SoleVigente cal mid db'
      (create_contract-SoleVigente cal user e today n w x row db mid one sole) more
