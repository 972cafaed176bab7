-- ===== src/Personal/Saldos/Runs.antt =====
-- The balances over any sequence of requests about leave.
use backend_ssas_rrhh.Personal.Rows.{Calendario, PersonalDb}
use backend_ssas_rrhh.Personal.Requests.{
  LeaveStep, LeaveRun, assigned, type_created, type_updated, requested, decided, stay, then_step,
}
use backend_ssas_rrhh.Personal.Saldos.{Balanced}
use backend_ssas_rrhh.Personal.Saldos.Steps.{
  create_absence_type-Balanced, update_absence_type-Balanced, request_absence-Balanced,
  assign_vacation_balance-Balanced,
}
use backend_ssas_rrhh.Personal.Saldos.Approvals.{decide_absence-Balanced}

LeaveStep-Balanced :
    (cal : Calendario) (db db' : PersonalDb)
    → Balanced cal db
    → LeaveStep cal db db'
    → Balanced cal db'
LeaveStep-Balanced cal db db' b (assigned u e n w g g' d _ h) =
    assign_vacation_balance-Balanced cal db db' b u e n w g g' d h
LeaveStep-Balanced cal db db' b (type_created u e n x row _ h) =
    create_absence_type-Balanced cal db db' b u e n x row h
LeaveStep-Balanced cal db db' b (type_updated u e i x row _ h) =
    update_absence_type-Balanced cal db db' b u e i x row h
LeaveStep-Balanced cal db db' b (requested u n x row _ h) =
    request_absence-Balanced cal db db' b u n x row h
LeaveStep-Balanced cal db db' b (decided u e n i x row _ h) =
    decide_absence-Balanced cal u e n i x row db db' b h

-- Whatever requests about leave are made, in any order and of any company, where the balances agree with
-- the leaves at the start they do at the end: for every worker and year the days used are the sum of the
-- days that the leaves of the year deduct, and no more than the days assigned.
pub LeaveRun-Balanced :
    (cal : Calendario) (db db' : PersonalDb)
    → Balanced cal db
    → LeaveRun cal db db'
    → Balanced cal db'
LeaveRun-Balanced cal db _ b (stay _) = b
LeaveRun-Balanced cal db db' b (then_step _ mid _ one more) =
    LeaveRun-Balanced cal mid db' (LeaveStep-Balanced cal db mid b one) more
