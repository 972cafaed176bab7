-- ===== src/Personal/Tests.antt =====
-- Instances of the properties of contracts and leave.
use backend_ssas_rrhh.Base.{
  ℕ, err, ◌≡◌, refl, true, false, none, some, [], ◌∷◌, ok, ltb, arith, if◌then◌else◌,
}
use backend_ssas_rrhh.Personal.Rows.{
  http, Documento, Formato, User, Trabajador, Contrato, EstadoContrato, TipoAusencia, SaldoVacacion,
  Solicitud, EstadoSolicitud, Cargo, PersonalDb, Calendario, user_tenant, own_employee,
}
use backend_ssas_rrhh.Personal.Solicitudes.{
  AbsenceInput, request_absence, check_maximum, check_document,
}
use backend_ssas_rrhh.Personal.Decisiones.{
  AbsenceDecision, take_days, check_decision, decide_absence,
}
use backend_ssas_rrhh.Personal.Contratos.{
  ContractInput, check_boss, check_contract, create_contract,
}
use backend_ssas_rrhh.Personal.Requests.{LeaveRun, requested, decided, stay, then_step}
use backend_ssas_rrhh.Personal.Saldos.{Balanced, BalancedRow-add_row}
use backend_ssas_rrhh.Personal.Saldos.Runs.{LeaveRun-Balanced}
use backend_ssas_rrhh.Personal.Solapes.{NoOverlap, LeaveRun-NoOverlap}
use backend_ssas_rrhh.Personal.Versiones.{
  SoleVigente, ContractRun, then_contract, ContractRun-SoleVigente,
}
use backend_ssas_rrhh.Personal.Versiones as Versiones
use backend_ssas_rrhh.Personal.Documentos.{
  Archivo, Legajo, new_documento, licencia_medica, store_document, upload_own_document,
  download_own_document,
}
use backend_ssas_rrhh.Personal.Privados.{upload_own_document-private}
use backend_ssas_rrhh.Personal.Terminos.{terms, terms_on, Ordered, create_contract-approved_terms}

-- A calendar of two years, of one month each: the second one begins on the day 100.
abbrev two_years : Calendario
two_years = record {
  year = λ day. if ltb day 100 then 0 else 1;
  month = λ day. 1;
  first_day = λ y. y;
  last_day = λ y. 99;
}

abbrev worker : Trabajador
worker = record {
  id = 5;
  empresa_id = 1;
  usuario_id = some 50;
  estado = "ACTIVO";
  fecha_ingreso = 1;
  fecha_salida = none;
}

abbrev vacation : TipoAusencia
vacation = record {
  id = 2;
  empresa_id = 1;
  codigo = "VACACION";
  nombre = "Vacación";
  es_remunerado = true;
  descuenta_vacacion = true;
  requiere_documento = false;
  dias_maximos_anio = none;
  activo = true;
}

abbrev balance : SaldoVacacion
balance = record {
  id = 9;
  empresa_id = 1;
  empleado_id = 5;
  gestion = 0;
  dias_asignados = 15;
  dias_usados = 0;
}

abbrev first_contract : Contrato
first_contract = record {
  id = 30;
  empresa_id = 1;
  empleado_id = 5;
  cargo_id = 4;
  departamento_id = 6;
  jefe_directo_id = none;
  contrato_anterior_id = none;
  numero_contrato = "C-1";
  hora_entrada_programada = 480;
  horas_jornada = 800;
  minutos_descanso = 60;
  salario_basico = 5000;
  fecha_inicio = 1;
  fecha_fin = none;
  estado = EstadoContrato.vigente;
}

abbrev position : Cargo
position = record { id = 4; empresa_id = 1; departamento_id = none }

abbrev department : Cargo
department = record { id = 6; empresa_id = 1; departamento_id = none }

abbrev db0 : PersonalDb
db0 = record {
  trabajadores = worker ∷ [];
  contratos = first_contract ∷ [];
  tipos = vacation ∷ [];
  saldos = balance ∷ [];
  solicitudes = [];
  documentos = [];
  cargos = position ∷ [];
  departamentos = department ∷ [];
  boletas_aprobadas = record { empresa_id = 1; empleado_id = 5; gestion = 0; mes = 1 } ∷ [];
}

abbrev worker_user : User
worker_user = record { id = 50; empresa_id = some 1; roles = [] }

abbrev manager : User
manager = record { id = 51; empresa_id = some 1; roles = "RRHH" ∷ [] }

abbrev leave : AbsenceInput
leave = record {
  tipo_ausencia_id = 2;
  fecha_inicio = 10;
  fecha_fin = 14;
  motivo = "viaje";
  documento_id = none;
}

abbrev waiting : Solicitud
waiting = record {
  id = 70;
  empresa_id = 1;
  empleado_id = 5;
  tipo_ausencia_id = 2;
  fecha_inicio = 10;
  fecha_fin = 14;
  dias_solicitados = 5;
  dias_descontados = none;
  motivo = "viaje";
  documento_id = none;
  estado = EstadoSolicitud.pendiente;
  observacion_jefe = none;
  resuelto_por_id = none;
  resuelto_en = none;
}

abbrev db1 : PersonalDb
db1 = record db0 { solicitudes = waiting ∷ [] }

asked : request_absence two_years worker_user 70 leave db0 ≡ ok (waiting, db1)
unfolding request_absence check_maximum check_document own_employee
asked = refl

abbrev approval : AbsenceDecision
approval = record { aprobar = true; observacion = none; dias_habiles_vacacion = some 3 }

abbrev approved : Solicitud
approved = record waiting {
  estado = EstadoSolicitud.aprobada;
  dias_descontados = some 3;
  resuelto_por_id = some 51;
  resuelto_en = some 500;
}

abbrev db2 : PersonalDb
db2 = record db0 { solicitudes = approved ∷ []; saldos = record balance { dias_usados = 3 } ∷ [] }

granted : decide_absence two_years manager none 500 70 approval db1 ≡ ok (approved, db2)
unfolding decide_absence check_decision take_days user_tenant
granted = refl

leave_requests : LeaveRun two_years db0 db2
leave_requests =
    then_step db0 db1 db2 (requested worker_user 70 leave waiting db1 asked)
      (then_step db1 db2 db2 (decided manager none 500 70 approval approved db2 granted) (stay db2))

balanced0 : Balanced two_years db0
balanced0 = record {
  clean = tt;
  balances = λ c w g. BalancedRow-add_row c w g 0 balance [] refl refl;
}

LeaveRun-Balanced_example : Balanced two_years db2
LeaveRun-Balanced_example = LeaveRun-Balanced two_years db0 db2 balanced0 leave_requests

LeaveRun-NoOverlap_example : NoOverlap db2.solicitudes
LeaveRun-NoOverlap_example = LeaveRun-NoOverlap two_years db0 db2 tt leave_requests

abbrev raise : ContractInput
raise = record {
  numero_contrato = "C-2";
  cargo_id = 4;
  departamento_id = 6;
  jefe_directo_id = none;
  hora_entrada_programada = 480;
  horas_jornada = 800;
  minutos_descanso = 60;
  salario_basico = 6000;
  fecha_inicio = 120;
  fecha_fin = none;
}

abbrev second_contract : Contrato
second_contract = record first_contract {
  id = 31;
  contrato_anterior_id = some 30;
  numero_contrato = "C-2";
  salario_basico = 6000;
  fecha_inicio = 120;
}

abbrev db3 : PersonalDb
db3 = record db0 {
  contratos =
      record first_contract { fecha_fin = some 119; estado = EstadoContrato.reemplazado }
      ∷ second_contract
      ∷ [];
}

raised : create_contract two_years manager none 110 31 5 raise db0 ≡ ok (second_contract, db3)
unfolding create_contract check_contract check_boss user_tenant
raised = refl

sole0 : SoleVigente db0.contratos
unfolding SoleVigente
sole0 c w = ground arith

ContractRun-SoleVigente_example : SoleVigente db3.contratos
ContractRun-SoleVigente_example = ContractRun-SoleVigente two_years db0 db3 sole0 (
    then_contract db0 db3 db3 manager none 110 31 5 raise second_contract raised
      (Versiones.stay db3))

ordered : Ordered two_years
ordered a b = ground arith

target : user_tenant manager none ≡ ok 1
unfolding user_tenant
target = refl

create_contract-approved_terms_example :
    terms_on 1 5 50 db3.contratos ≡ terms_on 1 5 50 db0.contratos
create_contract-approved_terms_example =
    create_contract-approved_terms two_years manager none 1 110 31 5 50 raise second_contract db0
      db3 ordered target refl refl raised

-- A contract that ended on the day 40 comes to cover the day 50, in a year that is approved.
abbrev db_ended : PersonalDb
db_ended = record db0 { contratos = record first_contract { fecha_fin = some 40 } ∷ [] }

ended : terms_on 1 5 50 db_ended.contratos ≡ []
ended = refl

extended :
    create_contract two_years manager none 110 31 5 raise db_ended ≡ ok (second_contract, db3)
unfolding create_contract check_contract check_boss user_tenant
extended = refl

covered_again : terms_on 1 5 50 db3.contratos ≡ terms first_contract ∷ []
covered_again = refl

abbrev account : ℕ → User
account id = record { id = id; empresa_id = some 1; roles = [] }

abbrev file_room : Legajo
file_room = record {
  db = record {
    trabajadores = worker ∷ record worker { id = 6; usuario_id = some 60 } ∷ [];
    contratos = [];
    tipos = [];
    saldos = [];
    solicitudes = [];
    documentos = [];
    cargos = [];
    departamentos = [];
    boletas_aprobadas = [];
  };
  disk = [];
}

-- The file begins with "%PDF-".
abbrev sick_note : Archivo
sick_note = record {
  content_type = some Formato.pdf;
  stem = 97 ∷ [];
  bytes = 37 ∷ 80 ∷ 68 ∷ 70 ∷ 45 ∷ 49 ∷ [];
}

abbrev note_row : Documento
note_row = new_documento 8 90 1 5 licencia_medica Formato.pdf sick_note

abbrev with_note : Legajo
with_note = record {
  db = record file_room.db { documentos = note_row ∷ [] };
  disk = (note_row.ruta_privada, sick_note.bytes) ∷ [];
}

note_stored : upload_own_document (account 50) 8 90 sick_note file_room ≡ ok (note_row, with_note)
unfolding upload_own_document store_document own_employee
note_stored = refl

own_employee_runs :
    (own_employee (account 50) file_room.db ≡ ok (1, worker))
    × (own_employee (account 60) file_room.db
        ≡ ok (1, record worker { id = 6; usuario_id = some 60 }))
unfolding own_employee
own_employee_runs = (refl, refl)

upload_own_document-private_example :
    (download_own_document (account 50) 8 with_note
      ≡ ok (sick_note.bytes, Formato.pdf, 97 ∷ 46 ∷ 112 ∷ 100 ∷ 102 ∷ []))
    × (download_own_document (account 60) 8 with_note ≡ err (http 404 "Documento no encontrado"))
upload_own_document-private_example =
    upload_own_document-private (account 50) (account 60) 8 90 1 worker 1
      (record worker { id = 6; usuario_id = some 60 }) sick_note note_row file_room with_note
      note_stored refl own_employee_runs.0 own_employee_runs.1 refl
