-- ===== src/Personal/Requests.antt =====
-- The requests about leave, each as one step of the database.
use backend_ssas_rrhh.Base.{ℕ, ◌≡◌, Option, ok}
use backend_ssas_rrhh.Personal.Rows.{User, TipoAusencia, Solicitud, Calendario, PersonalDb}
use backend_ssas_rrhh.Personal.Ausencias.{
  AbsenceTypeInput, AbsenceTypeUpdate, assign_vacation_balance, create_absence_type,
  update_absence_type,
}
use backend_ssas_rrhh.Personal.Solicitudes.{AbsenceInput, request_absence}
use backend_ssas_rrhh.Personal.Decisiones.{AbsenceDecision, decide_absence}

-- A request about leave that returned.
pub data LeaveStep (cal : Calendario) (db : PersonalDb) : PersonalDb → Type 0 where
  assigned :
      (user : User) (empresa_id : Option ℕ) (new_id w g g' dias : ℕ) (db' : PersonalDb)
      → assign_vacation_balance user empresa_id new_id w g g' dias db ≡ ok (tt, db')
      → LeaveStep cal db db'
  type_created :
      (user : User) (empresa_id : Option ℕ) (new_id : ℕ) (x : AbsenceTypeInput) (row : TipoAusencia)
      (db' : PersonalDb)
      → create_absence_type user empresa_id new_id x db ≡ ok (row, db')
      → LeaveStep cal db db'
  type_updated :
      (user : User) (empresa_id : Option ℕ) (id : ℕ) (x : AbsenceTypeUpdate) (row : TipoAusencia)
      (db' : PersonalDb)
      → update_absence_type user empresa_id id x db ≡ ok (row, db')
      → LeaveStep cal db db'
  requested :
      (user : User) (new_id : ℕ) (x : AbsenceInput) (row : Solicitud) (db' : PersonalDb)
      → request_absence cal user new_id x db ≡ ok (row, db')
      → LeaveStep cal db db'
  decided :
      (user : User) (empresa_id : Option ℕ) (now id : ℕ) (x : AbsenceDecision) (row : Solicitud)
      (db' : PersonalDb)
      → decide_absence cal user empresa_id now id x db ≡ ok (row, db')
      → LeaveStep cal db db'

pub data LeaveRun (cal : Calendario) : PersonalDb → PersonalDb → Type 0 where
  stay : (db : PersonalDb) → LeaveRun cal db db
  then_step :
      (db mid db' : PersonalDb) → LeaveStep cal db mid → LeaveRun cal mid db' → LeaveRun cal db db'
