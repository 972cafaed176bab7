-- ===== src/Asistencia.antt =====
-- Attendance: clocking in and out (src/ssas/personal/infrastructure/http/router.py), the corrections
-- and the authorisation of overtime (src/ssas/personal/infrastructure/http/attendance_adjustments_router.py).
pub mod Rows
pub mod Horas
pub mod Lookup
pub mod Fichar
pub mod Correcciones
pub mod Decisiones
pub mod Extras
pub mod Rrhh
pub mod Requests
pub mod Tablas
pub mod Cambios
pub mod Cubiertas
pub mod Manos
pub mod Cerrados
pub mod Autorizar
pub mod Pago
pub mod Redondeo
pub mod Jornadas
mod Tests
mod Ejemplos
