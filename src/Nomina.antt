-- ===== src/Nomina.antt =====
-- Payroll periods (src/ssas/personal/infrastructure/http/payroll_router.py).
pub mod Rows
pub mod Legal
pub mod Rates
pub mod Lookup
pub mod Structure
pub mod Periods
pub mod Review
pub mod Gather
pub mod Calculate
pub mod Written
pub mod Approved
pub mod Final
pub mod Tests
pub mod Payees
pub mod Payslips
