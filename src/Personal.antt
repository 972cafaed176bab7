-- ===== src/Personal.antt =====
-- Personnel: contracts and leave (src/ssas/personal/infrastructure/http/router.py).
pub mod Rows
pub mod Ausencias
pub mod Solicitudes
pub mod Decisiones
pub mod Requests
pub mod Saldos
pub mod Solapes
pub mod Documentos
pub mod Privados
pub mod Contratos
pub mod Versiones
pub mod Terminos
mod Tests
