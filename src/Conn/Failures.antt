-- ===== src/Conn/Failures.antt =====
-- internal/conn/conn.go: the errors of a connection, as the code looks at them.
use kbdiag.Prelude.{String, Bool, false, Option, none, some, str_eq, is_some}

-- pgconn.PgError: what the server answered.
pub record PgError : Type 0 where
  pub code : String
  pub message : String

-- An error: err.Error(), and the PgError that errors.As finds in it.
pub record Failure : Type 0 where
  pub text : String
  pub answer : Option PgError

-- MissingDatabase
unfoldable pub missing_database : Failure → Bool
missing_database e = elim e.answer [ none ↦ false | some p ↦ str_eq p.code "3D000" ]

-- ServerError
unfoldable pub server_error : Failure → Bool
server_error e = is_some e.answer

-- A call that can fail.
pub data Attempt (A : Type 0) : Type 0 where
  done : A → Attempt A
  failed : Failure → Attempt A
