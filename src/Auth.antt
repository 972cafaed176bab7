-- ===== src/Auth.antt =====
-- Accounts, passwords and tokens (src/ssas/auth, src/ssas/core/security/jwt.py).
pub mod Text
pub mod Trim
pub mod Errors
pub mod Infix
pub mod Quantifiers
pub mod Policy
pub mod Store
pub mod Tokens
pub mod Jwt
pub mod UseCases
pub mod Login
pub mod Lockout
pub mod Attempts
pub mod Account
pub mod Usable
pub mod Admission
pub mod Renewal
pub mod Rotation
pub mod Reset
pub mod Tests
