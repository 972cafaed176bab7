-- ===== src/Auth/Attempts.antt =====
-- Several logins in a row, and what they do to the lock of an account.
use backend_ssas_rrhh.Base.{
  ℕ, ◌+◌, ◌*◌, ◌≤◌, ◌<◌, ◌≡◌, refl, false, none, some, List, [], ◌∷◌, ap, length, All, err, arith,
}
use backend_ssas_rrhh.Auth.Errors.{AuthError}
use backend_ssas_rrhh.Auth.Store.{UserRow, Db, failed_row, next_attempts, record_failed_login}
use backend_ssas_rrhh.Auth.Jwt.{Crypto, Settings}
use backend_ssas_rrhh.Auth.UseCases.{Credentials, Fresh, is_locked}
use backend_ssas_rrhh.Auth.Login.{handle_login}
use backend_ssas_rrhh.Auth.Lockout.{Names, Names-failed, handle_login_wrong, handle_login_locked}

pub record Attempt : Type 0 where
  pub now : ℕ
  pub fresh : Fresh
  pub credentials : Credentials

module _ (c : Crypto) (s : Settings) where
  abbrev pub attempt : Attempt → Db → Db
  attempt a db = (handle_login c s a.now a.fresh a.credentials db).1

  -- The database after the requests, one after the other.
  unfoldable pub run_attempts : List Attempt → Db → Db
  run_attempts [] db = db
  run_attempts (a ∷ later) db = run_attempts later (attempt a db)

  -- The request is for the account, with a password that is not the account's.
  abbrev pub Misses : Db → UserRow → Attempt → Type 0
  Misses db u a =
      Names c.letters a.credentials db u
      × (c.verify a.credentials.password u.hashed_password ≡ false)

  abbrev failed : ℕ → UserRow → UserRow
  failed now = failed_row now s.max_login_attempts s.login_lock_minutes

  abbrev after_failure : ℕ → UserRow → Db → Db
  after_failure now u =
      record_failed_login now u.id u.empresa_id s.max_login_attempts s.login_lock_minutes

  Misses-failed :
      (now : ℕ) (db : Db) (u : UserRow) (a : Attempt)
      → Misses db u a
      → Misses (after_failure now u db) (failed now u) a
  unfolding failed_row
  Misses-failed now db u a (names, wrong) = (
    Names-failed c.letters a.credentials db u now s.max_login_attempts s.login_lock_minutes names,
    wrong,
  )

  All-Misses-failed :
      (now : ℕ) (db : Db) (u : UserRow) (more : List Attempt)
      → All (Misses db u) more
      → All (Misses (after_failure now u db) (failed now u)) more
  All-Misses-failed now db u [] _ = tt
  All-Misses-failed now db u (a ∷ more) (m, ms) =
      (Misses-failed now db u a m, All-Misses-failed now db u more ms)

  attempt-Misses :
      (db : Db) (u : UserRow) (a : Attempt)
      → Misses db u a
      → is_locked a.now u.bloqueado_hasta ≡ false
      → attempt a db ≡ after_failure a.now u db
  attempt-Misses db u a (names, wrong) unlocked =
      ap (λ r. r.1) (handle_login_wrong c s a.now a.fresh a.credentials db u names unlocked wrong)

  failed-locks :
      (now : ℕ) (u : UserRow)
      → u.bloqueado_hasta ≡ none
      → u.intentos_fallidos + 1 ≡ s.max_login_attempts
      → (failed now u).bloqueado_hasta ≡ some (now + s.login_lock_minutes * 60)
  unfolding failed_row next_attempts
  failed-locks now u unlocked count = rw unlocked (ground arith)

  failed-counts :
      (now : ℕ) (u : UserRow)
      → u.bloqueado_hasta ≡ none
      → u.intentos_fallidos + 1 < s.max_login_attempts
      → ((failed now u).bloqueado_hasta ≡ none)
        × ((failed now u).intentos_fallidos ≡ u.intentos_fallidos + 1)
  unfolding failed_row next_attempts
  failed-counts now u unlocked count = rw unlocked (ground arith)

  -- The last failure that the settings allow locks the account.
  last_failure_locks :
      (db : Db) (u : UserRow) (last : Attempt)
      → Misses db u last
      → u.bloqueado_hasta ≡ none
      → u.intentos_fallidos + 1 ≡ s.max_login_attempts
      → (fresh : Fresh) (q : Credentials) (t : ℕ) → Names c.letters q db u
      → t < last.now + s.login_lock_minutes * 60
      → handle_login c s t fresh q (attempt last db)
        ≡ (err AuthError.account_locked, attempt last db)
  last_failure_locks db u last miss unlocked count fresh q t names early =
      rw (attempt-Misses db u last miss (rw unlocked refl)) (
        handle_login_locked c s t fresh q (after_failure last.now u db) (failed last.now u)
          (Names-failed c.letters q db u last.now s.max_login_attempts s.login_lock_minutes names)
          (rw (failed-locks last.now u unlocked count) (ground arith)))

  -- After the allowed number of wrong passwords in a row, every login of the account is refused while
  -- the lock runs, also with the right password or with white space around its text, and changes
  -- nothing. The logins are not by an empty e-mail, which their schema refuses.
  pub handle_login-locks_after_max :
      (db : Db) (u : UserRow) (earlier : List Attempt) (last : Attempt)
      → All (Misses db u) earlier
      → Misses db u last
      → u.bloqueado_hasta ≡ none
      → u.intentos_fallidos + length earlier + 1 ≡ s.max_login_attempts
      → (fresh : Fresh) (q : Credentials) (t : ℕ) → Names c.letters q db u
      → t < last.now + s.login_lock_minutes * 60
      → handle_login c s t fresh q (attempt last (run_attempts earlier db))
        ≡ (err AuthError.account_locked, attempt last (run_attempts earlier db))
  unfolding run_attempts
  handle_login-locks_after_max db u [] last ms miss unlocked count fresh q t names early =
      last_failure_locks db u last miss unlocked (omega arith) fresh q t names early
  handle_login-locks_after_max db u (a ∷ more) last (m, ms) miss unlocked count fresh q t names
        early =
      let next = failed-counts a.now u unlocked (omega arith) in
      rw (attempt-Misses db u a m (rw unlocked refl)) (
        handle_login-locks_after_max (after_failure a.now u db) (failed a.now u) more last
          (All-Misses-failed a.now db u more ms) (Misses-failed a.now db u last miss) next.0
          (omega (arith, next.1)) fresh q t
          (Names-failed c.letters q db u a.now s.max_login_attempts s.login_lock_minutes names)
          early)

  -- The lock of the account ran out at or before the request.
  abbrev pub Later : ℕ → Attempt → Type 0
  Later t a = t ≤ a.now

  failed-after_lock :
      (t now : ℕ) (u : UserRow)
      → u.bloqueado_hasta ≡ some t
      → t ≤ now
      → 2 ≤ s.max_login_attempts
      → (failed now u).bloqueado_hasta ≡ some t
  unfolding failed_row next_attempts
  failed-after_lock t now u lock late two = rw lock (ground arith)

  -- Once a lock has run out, wrong passwords no longer lock the account: with two or more allowed
  -- failures, each of any number of them is answered as a wrong password, never as a locked account. White
  -- space may stand around the text of a login; it is not an empty e-mail, which the schema refuses.
  pub handle_login-never_locks_again :
      (t : ℕ) (db : Db) (u : UserRow) (earlier : List Attempt) (last : Attempt)
      → All (Misses db u) earlier
      → Misses db u last
      → u.bloqueado_hasta ≡ some t
      → All (Later t) earlier
      → Later t last
      → 2 ≤ s.max_login_attempts
      → (handle_login c s last.now last.fresh last.credentials (run_attempts earlier db)).0
        ≡ err AuthError.invalid_credentials
  unfolding run_attempts
  handle_login-never_locks_again t db u [] last ms (names, wrong) lock lates late two =
      rw
        (handle_login_wrong c s last.now last.fresh last.credentials db u names
          (rw lock (ground arith)) wrong)
        refl
  handle_login-never_locks_again t db u (a ∷ more) last (m, ms) miss lock (late_a, lates) late two =
      rw (attempt-Misses db u a m (rw lock (ground arith))) (
        handle_login-never_locks_again t (after_failure a.now u db) (failed a.now u) more last
          (All-Misses-failed a.now db u more ms) (Misses-failed a.now db u last miss)
          (failed-after_lock t a.now u lock late_a two) lates late two)
