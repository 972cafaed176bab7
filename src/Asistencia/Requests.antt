-- ===== src/Asistencia/Requests.antt =====
-- The requests about attendance, each as one step of the database.
use backend_ssas_rrhh.Base.{ℕ, ◌≡◌, ok}
use backend_ssas_rrhh.Personal.Rows.{User, Calendario}
use backend_ssas_rrhh.Asistencia.Rows.{Fichaje, Correccion, Autorizacion, AsistenciaDb}
use backend_ssas_rrhh.Asistencia.Fichar.{GpsInput, clock_in, clock_out}
use backend_ssas_rrhh.Asistencia.Correcciones.{CorrectionInput, request_correction}
use backend_ssas_rrhh.Asistencia.Decisiones.{BossDecision, decide_correction}
use backend_ssas_rrhh.Asistencia.Extras.{OvertimeInput, request_overtime, decide_overtime_boss}
use backend_ssas_rrhh.Asistencia.Rrhh.{HrDecision, decide_overtime_hr}

-- A request about corrections or overtime that returned.
pub data Ajuste (wall : ℕ → ℕ) (cal : Calendario) (db : AsistenciaDb) : AsistenciaDb → Type 0 where
  asked :
      (user : User) (now new_id : ℕ) (x : CorrectionInput) (c : Correccion) (db' : AsistenciaDb)
      → request_correction wall cal user now new_id x db ≡ ok (c, db')
      → Ajuste wall cal db db'
  corrected :
      (user : User) (now new_id id : ℕ) (x : BossDecision) (c : Correccion) (db' : AsistenciaDb)
      → decide_correction wall cal user now new_id id x db ≡ ok (c, db')
      → Ajuste wall cal db db'
  claimed :
      (user : User) (new_id : ℕ) (x : OvertimeInput) (a : Autorizacion) (db' : AsistenciaDb)
      → request_overtime cal user new_id x db ≡ ok (a, db')
      → Ajuste wall cal db db'
  confirmed :
      (user : User) (now id : ℕ) (x : BossDecision) (a : Autorizacion) (db' : AsistenciaDb)
      → decide_overtime_boss wall cal user now id x db ≡ ok (a, db')
      → Ajuste wall cal db db'
  authorized :
      (user : User) (now id : ℕ) (x : HrDecision) (a : Autorizacion) (db' : AsistenciaDb)
      → decide_overtime_hr wall cal user now id x db ≡ ok (a, db')
      → Ajuste wall cal db db'

-- A request about attendance that returned.
pub data Step (wall : ℕ → ℕ) (cal : Calendario) (db : AsistenciaDb) : AsistenciaDb → Type 0 where
  entered :
      (user : User) (now new_id : ℕ) (gps : GpsInput) (r : Fichaje) (db' : AsistenciaDb)
      → clock_in wall user now new_id gps db ≡ ok (r, db')
      → Step wall cal db db'
  left :
      (user : User) (now : ℕ) (gps : GpsInput) (r : Fichaje) (db' : AsistenciaDb)
      → clock_out user now gps db ≡ ok (r, db')
      → Step wall cal db db'
  adjusted : (db' : AsistenciaDb) → Ajuste wall cal db db' → Step wall cal db db'

pub data Run (wall : ℕ → ℕ) (cal : Calendario) : AsistenciaDb → AsistenciaDb → Type 0 where
  stay : (db : AsistenciaDb) → Run wall cal db db
  then_step :
      (db mid db' : AsistenciaDb)
      → Step wall cal db mid
      → Run wall cal mid db'
      → Run wall cal db db'
