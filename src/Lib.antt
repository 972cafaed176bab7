-- ===== src/Lib.antt =====
-- Verification library of the SSAS human-resources backend (Python, FastAPI, SQLAlchemy).
--
-- The program is a multi-tenant API. A request opens one database transaction
-- (src/ssas/infrastructure/database/session.py); a router checks the tenant and calls application code,
-- which is either pure arithmetic or a use case over repositories.
--
-- Base: shared names, lists as tables, the raising of exceptions (`Outcome`), signed integers.
-- Money: decimal amounts as whole ten-thousandths, and their rounding to cents. Python's decimal
--   context of 28 digits is exact on the products and sums that occur, and its one inexact division
--   (a pay divided by days or hours) lies too far from a tie to round another way.
-- Session: the transaction of a request.
-- Payroll: src/ssas/personal/application/payroll.py and rc_iva.py. Rules has the data, Calc
--   `calculate_payroll`, Proration the calendar proration and the overtime amount, RcIva
--   `calculate_rc_iva`. The proofs stand in Totals, Balance, Ans, Proration/Days and Credits.
--   A text that the code compares with constants is a data type with a constructor for each constant.
--   Dates are compared by their ordinals.
-- Auth: src/ssas/auth and src/ssas/core/security/jwt.py. Store and Tokens are the two
--   repositories, Jwt the token service, Policy the password policy, UseCases the nine use
--   cases, Login the login endpoint with its second session. Infix, Quantifiers, Trim, Lockout,
--   Attempts, Account, Usable, Admission, Renewal, Rotation and Reset have the proofs. The
--   signing library, the password hash and SHA-256 are parameters (`Crypto`), and so are
--   `lower`, `casefold` and the digits of Python's Unicode tables and the `lower` of the
--   database (`Letters`); a call takes the instant at which it runs and the identifiers that it
--   draws. Audit rows are left out: their insert is taken to succeed.
--
-- Nomina: src/ssas/personal/infrastructure/http/payroll_router.py and the tables of
--   src/ssas/personal/infrastructure/persistence/models.py. Rows has the tables, Legal the legal rates
--   and the minimum wage, Structure the salary rules, Periods the opening, the registrations and the
--   approval, Review, Gather and Calculate the computation of a period, which calls Payroll,
--   Payslips the queries. The identifiers of new rows, the current date and the instant are arguments;
--   a set or a dict is a list without repetition, or the first row with the key, which the tables'
--   unique indexes make the same. The proofs stand in Rates, Lookup, Written, Payees, Approved
--   and Final.
-- Suscripciones: src/ssas/suscripciones/application/policy.py. The sizes of stored files are a parameter.
-- Reclutamiento: src/ssas/vacantes and src/ssas/postulaciones, with the tables of entrevistas, evaluaciones,
--   postulantes and empleados. Rows has the tables, Lookup the queries of `SeleccionRepository`,
--   Entrevistas and Transiciones the interviews, Evaluaciones, Contratacion (hiring and the talent pool),
--   Tablero (the board), Publica (the public application), Vacantes and Publicacion the operations, and
--   Requests their steps. The proofs stand in Cupos (the places of a vacancy), Agenda (the time of an
--   interviewer), Unicas, Codigos and Publicadas. A table has one row for each key, so a change of a row
--   is that of the first row with the key. Row locks are not modelled: a request is one step.
-- Personal: src/ssas/personal/infrastructure/http/router.py. Rows has the tables, Ausencias the balances
--   and the types of leave, Solicitudes the requests of one, Decisiones the decision on it, Contratos the versions of a
--   contract, Documentos the files of a worker, Requests the steps. The proofs stand in Saldos, Solapes,
--   Versiones, Terminos and Privados. What `date` computes of a day is an argument (`Calendario`).
-- Asistencia: src/ssas/personal/infrastructure/http/attendance_adjustments_router.py, the clocking of
--   router.py beside it and src/ssas/personal/application/attendance.py. Rows has the tables, Horas the
--   computation of the hours, Lookup the shared queries, Fichar the clocking, Correcciones and Decisiones
--   the corrections, Extras and Rrhh the overtime with its two decisions, Requests the steps. The wall
--   clock of the company's zone is an argument. Cambios says what a request changed; the proofs stand in
--   Cubiertas, Manos, Cerrados, Jornadas, Autorizar, Redondeo, and Pago, which reads the tables as the payroll does.
--   Python's quotients of 28 digits are computed as such, since their rounding shows here.
--
-- Recursion follows the lists; the draws of a tracking code are counted down from ten, as in the code.
-- The last digit of a 28-digit quotient is sought in at most forty steps, which are enough below 10^68 units
-- (Redondeo); a span of Python's dates is below 10^48.
--
-- Not modelled: HTTP routing and schemas as such, e-mail, file storage beyond the files of a worker, the AI
-- providers, PDF and report output, backups, and the SQL engine, whose queries are list functions here;
-- listings that change nothing. Of src/ssas, the endpoints of suscripciones, parametros_legales, roles,
-- usuarios, modulos, platform, importacion and the catalogues (cargos, departamentos, habilidades) are
-- not modelled: the rows of theirs that other parts read are in the tables of those parts.
pub mod Base
pub mod Money
pub mod Session
pub mod Payroll
pub mod Nomina
pub mod Auth
pub mod Suscripciones
pub mod Reclutamiento
pub mod Personal
pub mod Asistencia
