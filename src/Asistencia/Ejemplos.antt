-- ===== src/Asistencia/Ejemplos.antt =====
-- Instances of the properties of attendance: closed months, decisions by hand, and days.
use backend_ssas_rrhh.Base.{◌≡◌, refl, false, none, some, [], ◌∷◌, ok}
use backend_ssas_rrhh.Base.Int.{pos}
use backend_ssas_rrhh.Nomina.Rows.{Estado, PeriodoNomina}
use backend_ssas_rrhh.Personal.Rows.{EstadoSolicitud, user_tenant, own_employee}
use backend_ssas_rrhh.Asistencia.Rows.{Fichaje, Correccion, Autorizacion, EstadoExtra, AsistenciaDb}
use backend_ssas_rrhh.Asistencia.Horas.{minutes_late, worked_hours}
use backend_ssas_rrhh.Asistencia.Lookup.{current_boss}
use backend_ssas_rrhh.Asistencia.Decisiones.{
  corrected_row, row_or_new, correct_row, check_correction, resolved, with_times, decide_correction,
}
use backend_ssas_rrhh.Asistencia.Extras.{overtime_request, decide_overtime_boss}
use backend_ssas_rrhh.Asistencia.Fichar.{GpsInput, clock_in, clock_out, new_fichaje, with_salida}
use backend_ssas_rrhh.Asistencia.Rrhh.{HrDecision, decide_overtime_hr}
use backend_ssas_rrhh.Asistencia.Requests.{entered, left, corrected, stay, then_step}
use backend_ssas_rrhh.Asistencia.Cerrados.{AjusteRun, then_ajuste, day_rows, AjusteRun-day_rows}
use backend_ssas_rrhh.Asistencia.Cerrados as Cerrados
use backend_ssas_rrhh.Asistencia.Autorizar.{decide_overtime-authorizes}
use backend_ssas_rrhh.Asistencia.Jornadas.{OneADay, Run-OneADay}
use backend_ssas_rrhh.Asistencia.Tests.{
  two_years, same_clock, account, long_day, clocked, yes_boss, yes_hr, asked_hour, with_extra,
}

-- The payroll of the first year is computed; a day of each year was clocked.
abbrev early_day : Fichaje
early_day = record long_day { id = 1; fecha = 10 }

abbrev year_done : PeriodoNomina
year_done = record {
  id = 3;
  empresa_id = 1;
  gestion = 0;
  mes = 1;
  estado = Estado.calculado;
  calculado_en = some 1;
  aprobado_en = none;
  aprobado_por_id = none;
}

-- The worker left an hour later.
abbrev later_exit : Correccion
later_exit = record {
  id = 4;
  empresa_id = 1;
  empleado_id = 5;
  asistencia_id = some 2;
  fecha = 110;
  nueva_entrada = 9532800000000;
  nueva_salida = 9572400000000;
  motivo = "Olvido";
  estado = EstadoSolicitud.pendiente;
  observacion_jefe = none;
  resuelto_por_id = none;
  resuelto_en = none;
}

abbrev half_closed : AsistenciaDb
half_closed = record clocked {
  periodos = year_done ∷ [];
  asistencias = early_day ∷ long_day ∷ [];
  correcciones = later_exit ∷ [];
}

abbrev corrected_exit : Correccion
corrected_exit = resolved (account 60) 9590400000000 yes_boss (some 2) later_exit

abbrev corrected_db : AsistenciaDb
corrected_db = record half_closed {
  asistencias = early_day ∷ with_times later_exit 1000 200 0 long_day ∷ [];
  correcciones = corrected_exit ∷ [];
}

correct_step :
    decide_correction same_clock two_years (account 60) 9590400000000 77 4 yes_boss half_closed
    ≡ ok (corrected_exit, corrected_db)
unfolding decide_correction check_correction correct_row corrected_row row_or_new current_boss
    own_employee user_tenant worked_hours minutes_late
correct_step = refl

AjusteRun-day_rows_example : day_rows 1 10 corrected_db ≡ day_rows 1 10 half_closed
AjusteRun-day_rows_example =
    AjusteRun-day_rows same_clock two_years 1 10 half_closed corrected_db refl (
      then_ajuste half_closed corrected_db corrected_db
        (corrected (account 60) 9590400000000 77 4 yes_boss corrected_exit corrected_db
          correct_step)
        (Cerrados.stay corrected_db))

abbrev by_hand : HrDecision
by_hand = record yes_hr {
  monto_autorizado = some 300000;
  referencia_calculo = some "Planilla 7";
  calculo_automatico = false;
}

decide_overtime-authorizes_example :
    (mid db' : AsistenciaDb) × (confirmed authorized : Autorizacion) × (decide_overtime_boss
        same_clock two_years
        (account 60)
        9590400000000
        9
        yes_boss
        (with_extra asked_hour)
      ≡ ok (confirmed, mid))
    × (decide_overtime_hr same_clock two_years (account 70) 9590400000001 9 by_hand mid
        ≡ ok (authorized, db'))
    × (overtime_request 1 9 db' ≡ ok authorized)
    × (authorized.estado ≡ EstadoExtra.autorizado)
    × (authorized.monto_autorizado ≡ some 300000)
    × (authorized.referencia_calculo ≡ some "Planilla 7")
unfolding user_tenant current_boss own_employee
decide_overtime-authorizes_example =
    decide_overtime-authorizes same_clock two_years 1 9 asked_hour long_day (with_extra asked_hour)
      (account 60) (account 70) 9590400000000 9590400000001 300000 "Planilla 7" yes_boss by_hand
      refl refl refl refl refl refl refl refl refl refl refl refl refl refl

abbrev no_rows : AsistenciaDb
no_rows = record clocked { asistencias = [] }

abbrev office : GpsInput
office = record { latitud = pos 0; longitud = pos 0 }

-- The worker came a quarter of an hour late.
abbrev came : Fichaje
came = new_fichaje 2 1 5 110 9533700000000 15 office

-- Ten hours and a quarter before the break.
abbrev went : Fichaje
went = with_salida 9570600000000 office 925 125 came

abbrev with_row : Fichaje → AsistenciaDb
with_row r = record clocked { asistencias = r ∷ [] }

came_step :
    clock_in same_clock (account 50) 9533700000000 2 office no_rows ≡ ok (came, with_row came)
unfolding clock_in own_employee minutes_late
came_step = refl

went_step : clock_out (account 50) 9570600000000 office (with_row came) ≡ ok (went, with_row went)
unfolding clock_out own_employee worked_hours
went_step = refl

Run-OneADay_example : OneADay (went ∷ [])
Run-OneADay_example = Run-OneADay same_clock two_years no_rows (with_row went) tt (
    then_step no_rows (with_row came) (with_row went)
      (entered (account 50) 9533700000000 2 office came (with_row came) came_step)
      (then_step (with_row came) (with_row went) (with_row went)
        (left (account 50) 9570600000000 office went (with_row went) went_step)
        (stay (with_row went))))
