-- ===== src/Payroll.antt =====
-- Payroll arithmetic (src/ssas/personal/application).
pub mod Rules
pub mod Calc
pub mod Totals
pub mod Balance
pub mod Ans
pub mod Proration
pub mod RcIva
pub mod Credits
mod Tests
