-- ===== src/Session.antt =====
-- `get_session` (src/ssas/infrastructure/database/session.py): one transaction for each request,
-- which is committed at the end and rolled back when an exception leaves it.
use backend_ssas_rrhh.Base.{Outcome, ok, err}

-- A request handler: from the database to its value and the new database, or an exception.
abbrev pub Handler : Type 0 → Type 0 → Type 0 → Type 0
Handler S E A = S → Outcome E (A × S)

module _ {S E A : Type 0} where
  abbrev pub settle : S → Outcome E (A × S) → Outcome E A × S
  settle s (ok (a, s')) = (ok a, s')
  settle s (err e) = (err e, s)

  -- What the client gets, and what the database holds afterwards.
  unfoldable pub in_transaction : Handler S E A → S → Outcome E A × S
  in_transaction h s = settle s (h s)
