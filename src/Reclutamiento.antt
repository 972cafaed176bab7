-- ===== src/Reclutamiento.antt =====
-- Recruitment: the vacancies of a company, the applications for them, the interviews, the
-- evaluations and the hiring (src/ssas/vacantes, src/ssas/postulaciones).
pub mod Rows
pub mod Lookup
pub mod Entrevistas
pub mod Transiciones
pub mod Evaluaciones
pub mod Contratacion
pub mod Tablero
pub mod Publica
pub mod Vacantes
pub mod Publicacion
pub mod Keys
pub mod Requests
pub mod Cupos
pub mod Agenda
pub mod Codigos
pub mod Unicas
pub mod Publicadas
mod Tests
