-- ===== src/Reclutamiento/Tests.antt =====
-- Instances of the properties of recruitment.
use backend_ssas_rrhh.Base.{
  ℕ, zero, suc, ◌≡◌, ◌⊎◌, refl, true, false, none, some, List, [], ◌∷◌, String, ok, arith,
}
use backend_ssas_rrhh.Auth.Text.{strip, lstrip}
use backend_ssas_rrhh.Nomina.Rows.{CurrentUser}
use backend_ssas_rrhh.Suscripciones.{
  PlanDb, current, is_allowed, require_operational, require_vacancy_capacity,
}
use backend_ssas_rrhh.Reclutamiento.Rows.{
  EstadoVacante, EstadoPostulacion, EstadoEntrevista, Modalidad, Vacante, Postulacion, Postulante,
  Entrevista, Empleado, Usuario, EtapaReclutamiento, ReclutamientoDb,
}
use backend_ssas_rrhh.Reclutamiento.Lookup.{target_empresa}
use backend_ssas_rrhh.Reclutamiento.Entrevistas.{
  EntrevistaRequest, crear_entrevista, check_entrevista, sin_conflicto, validar_agenda,
}
use backend_ssas_rrhh.Reclutamiento.Contratacion.{
  ContratarRequest, contratar, nueva_contratacion, ya_contratada,
}
use backend_ssas_rrhh.Reclutamiento.Publica.{generate_codigo}
use backend_ssas_rrhh.Reclutamiento.Vacantes.{obtener}
use backend_ssas_rrhh.Reclutamiento.Publicacion.{publicar, publicar_vacante}
use backend_ssas_rrhh.Reclutamiento.Requests.{
  Run, hired, programmed, interview, application, stay, then_step,
}
use backend_ssas_rrhh.Reclutamiento.Cupos.{AllCovered, AllCovered-add_row}
use backend_ssas_rrhh.Reclutamiento.Cupos.Runs.{Run-AllCovered}
use backend_ssas_rrhh.Reclutamiento.Cupos.Refinement.{cupos, ocupar, has_room, contratar-refines}
use backend_ssas_rrhh.Reclutamiento.Cupos.Again.{contratar-again}
use backend_ssas_rrhh.Reclutamiento.Agenda.{NoClash}
use backend_ssas_rrhh.Reclutamiento.Agenda.Runs.{Run-NoClash}
use backend_ssas_rrhh.Reclutamiento.Agenda.Final.{Over, Run-Over}
use backend_ssas_rrhh.Reclutamiento.Unicas.{AllSingle, Run-AllSingle}
use backend_ssas_rrhh.Reclutamiento.Codigos.{Drawn, generate_codigo-Drawn}
use backend_ssas_rrhh.Reclutamiento.Publicadas.{InPlan, publicar_vacante-InPlan}

abbrev open_vacancy : Vacante
open_vacancy = record {
  id = 7;
  empresa_id = 1;
  cargo_id = 1;
  departamento_id = 1;
  responsable_id = 2;
  titulo = "Contador";
  cantidad_vacantes = 1;
  fecha_publicacion = some 100;
  fecha_cierre = none;
  estado = EstadoVacante.publicada;
}

abbrev draft_vacancy : Vacante
draft_vacancy = record open_vacancy {
  id = 8;
  estado = EstadoVacante.borrador;
  fecha_publicacion = none;
}

abbrev active_post : Postulacion
active_post = record {
  id = 3;
  vacante_id = 7;
  postulante_id = 5;
  etapa_id = 1;
  motivo_rechazo_id = none;
  empleado_id = none;
  estado = EstadoPostulacion.activa;
  puntaje_manual = none;
  codigo_seguimiento = "POST-1";
  fecha_ultimo_cambio = 110;
}

abbrev ana : Postulante
ana = record {
  id = 5;
  empresa_id = 1;
  nombres = "Ana";
  apellidos = "Rojas";
  ci = "123";
  email = "ana@example.com";
  telefono = "700";
  ciudad = "Santa Cruz";
  cv_url = none;
  en_banco_talento = false;
}

abbrev interviewer : Usuario
interviewer = record {
  id = 2;
  empresa_id = some 1;
  is_active = true;
  eliminado_at = none;
  created_at = 1;
}

abbrev small_plan : PlanDb
small_plan = record {
  suscripciones = record { empresa_id = 1; plan_id = 2; estado = "ACTIVA"; updated_at = 1000 } ∷ [];
  planes =
      record {
        id = 2;
        max_usuarios = 2;
        max_vacantes_activas = 2;
        max_almacenamiento_mb = 1;
        funciones = none;
      }
      ∷ [];
  usuarios = [];
  vacantes = [];
  postulantes = [];
}

abbrev hired_stage : EtapaReclutamiento
hired_stage = record {
  id = 9;
  empresa_id = 1;
  orden = 4;
  es_inicial = false;
  es_contratado = true;
  es_rechazado = false;
}

abbrev db0 : ReclutamientoDb
db0 = record {
  vacantes = open_vacancy ∷ draft_vacancy ∷ [];
  vacante_habilidades = [];
  postulaciones = active_post ∷ [];
  postulantes = ana ∷ [];
  entrevistas = [];
  evaluaciones = [];
  empleados = [];
  etapas = hired_stage ∷ [];
  motivos = [];
  habilidades = [];
  cargos = [];
  departamentos = [];
  usuarios = interviewer ∷ [];
  empresas = [];
  plan = small_plan;
}

abbrev datos : ContratarRequest
datos = record {
  codigo = "E-1";
  apellido_paterno = "Rojas";
  apellido_materno = "";
  ci_expedido = "SC";
  fecha_ingreso = 300;
}

abbrev same_text : String → String
same_text s = s

abbrev new_employee : Empleado
new_employee = record {
  id = 20;
  empresa_id = 1;
  codigo = "E-1";
  nombres = "Ana";
  apellido_paterno = "Rojas";
  apellido_materno = "";
  ci = "123";
  ci_expedido = "SC";
  telefono = "700";
  email_personal = "ana@example.com";
  fecha_ingreso = 300;
  estado = "ACTIVO";
}

abbrev db1 : ReclutamientoDb
db1 = record db0 {
  vacantes =
      record open_vacancy { estado = EstadoVacante.cerrada; fecha_cierre = some 200 }
      ∷ draft_vacancy
      ∷ [];
  postulaciones =
      record active_post {
        empleado_id = some 20;
        estado = EstadoPostulacion.contratada;
        etapa_id = 9;
        fecha_ultimo_cambio = 200;
      }
      ∷ [];
  empleados = new_employee ∷ [];
}

first_hire : contratar same_text same_text 1 200 20 3 datos db0 ≡ ok (new_employee, db1)
unfolding contratar nueva_contratacion ya_contratada
first_hire = refl

hiring : Run db0 db1
hiring =
    then_step db0 db1 db1
      (application (hired same_text same_text 1 200 20 3 datos new_employee db1 first_hire))
      (stay db1)

covered_nothing : AllCovered [] db0.postulaciones
unfolding AllCovered
covered_nothing id = tt

covered0 : AllCovered db0.vacantes db0.postulaciones
covered0 =
    AllCovered-add_row draft_vacancy (open_vacancy ∷ []) db0.postulaciones (omega arith) refl
      (AllCovered-add_row open_vacancy [] db0.postulaciones (omega arith) refl covered_nothing)

Run-AllCovered_example : AllCovered db1.vacantes db1.postulaciones
Run-AllCovered_example = Run-AllCovered db0 db1 covered0 hiring

contratar-refines_example :
    (db1 ≡ db0)
    ⊎ ((vacante_id : ℕ) × (has_room (cupos db0 vacante_id) ≡ true)
        × ((id : ℕ) → cupos db1 id ≡ ocupar vacante_id (cupos db0) id))
contratar-refines_example =
    contratar-refines same_text same_text 1 200 20 3 datos new_employee db0 db1 first_hire

contratar-again_example :
    contratar same_text same_text 1 250 21 3 datos db1 ≡ ok (new_employee, db1)
contratar-again_example =
    contratar-again same_text same_text 1 200 20 3 datos new_employee db0 db1 250 21 refl first_hire

abbrev request : EntrevistaRequest
request = record {
  postulacion_id = 3;
  entrevistador_id = 2;
  tipo = "TECNICA";
  fecha_hora = 9000;
  con_zona = true;
  duracion_min = 30;
  modalidad = Modalidad.presencial;
  enlace_reunion = [];
  lugar = 65 ∷ [];
}

abbrev permission_codes : ℕ → ℕ → List String
permission_codes user empresa = "entrevistas:registrar_resultado" ∷ []

abbrev new_interview : Entrevista
new_interview = record {
  id = 30;
  postulacion_id = 3;
  entrevistador_id = 2;
  tipo = "TECNICA";
  fecha_hora = 9000;
  duracion_min = 30;
  modalidad = Modalidad.presencial;
  enlace_reunion = [];
  lugar = 65 ∷ [];
  estado = EstadoEntrevista.programada;
  puntaje = none;
  observaciones = none;
  recomendacion = none;
}

abbrev over_interview : Entrevista
over_interview = record new_interview { id = 29; estado = EstadoEntrevista.cancelada }

abbrev db2 : ReclutamientoDb
db2 = record db0 { entrevistas = over_interview ∷ [] }

abbrev db3 : ReclutamientoDb
db3 = record db0 { entrevistas = over_interview ∷ new_interview ∷ [] }

booking : crear_entrevista permission_codes 1 200 30 request db2 ≡ ok (new_interview, db3)
unfolding crear_entrevista check_entrevista sin_conflicto validar_agenda strip lstrip
booking = refl

booked : Run db2 db3
booked =
    then_step db2 db3 db3
      (interview
        (programmed permission_codes 1 200 30 request new_interview db3 (omega arith) refl booking))
      (stay db3)

free2 : NoClash db2.entrevistas
unfolding NoClash
free2 i j = ground arith

Run-NoClash_example : NoClash db3.entrevistas
Run-NoClash_example = Run-NoClash db2 db3 free2 booked

abbrev over2 : Over 29 over_interview db2.entrevistas
over2 = record {
  last = over_interview;
  found = refl;
  over = refl;
  same_state = refl;
  same_start = refl;
  same_length = refl;
  same_interviewer = refl;
  same_post = refl;
}

Run-Over_example : Over 29 over_interview db3.entrevistas
Run-Over_example = Run-Over 29 over_interview db2 db3 over2 booked

single0 : AllSingle db0.postulaciones
unfolding AllSingle
single0 v c = ground arith

Run-AllSingle_example : AllSingle db1.postulaciones
Run-AllSingle_example = Run-AllSingle db0 db1 single0 hiring

-- The first draw is the code of the application that there is.
abbrev draws : ℕ → String
draws zero = "POST-1"
draws (suc n) = "POST-2"

generate_codigo-Drawn_example :
    (codigo : String) × (generate_codigo draws db0 ≡ ok codigo) × Drawn draws db0 0 10 codigo
generate_codigo-Drawn_example = generate_codigo-Drawn draws db0 1 (omega arith) refl

abbrev tenant_user : CurrentUser
tenant_user = record { id = 2; empresa_id = some 1 }

abbrev published : Vacante
published = record draft_vacancy { estado = EstadoVacante.publicada; fecha_publicacion = some 210 }

abbrev db4 : ReclutamientoDb
db4 = record db0 { vacantes = open_vacancy ∷ published ∷ [] }

target : target_empresa tenant_user none ≡ ok 1
unfolding target_empresa
target = refl

publication : publicar_vacante 3 210 tenant_user none 8 db0 ≡ ok (published, db4)
unfolding publicar_vacante publicar obtener require_vacancy_capacity require_operational current
    is_allowed target_empresa
publication = refl

publicar_vacante-InPlan_example : InPlan 3 210 1 db0 db4
publicar_vacante-InPlan_example =
    publicar_vacante-InPlan 3 210 tenant_user none 8 1 published db0 db4 target publication
