-- ===== src/Conn.antt =====
-- internal/conn/conn.go: the settings of the connection. Opening it is pgx, and is not modelled.
pub mod Quoted
pub mod Timeout
pub mod Failures
use Prim.Native.Char.{code}
use Prim.Native.String.{◌++◌}
use kbdiag.Prelude.{
  ℕ, ◌+◌, ◌*◌, ◌/◌, ◌%◌, ◌^◌, ◌==◌, ltb, ℤ, pos, pos_part, neg_part, ◌+ℤ◌, sub_ℕ, String, Bool,
  true, false, List, [], ◌∷◌, ◌||◌, join, map, show, str_eq, if◌then◌else◌,
}
use kbdiag.Unicode.{Unicode}

-- The timeout is a time.Duration: nanoseconds in an int64.
pub record Config : Type 0 where
  pub host : String  -- empty or an absolute path: Unix socket directory
  pub port : ℤ
  pub user : String
  pub db_name : String
  pub query_timeout : ℤ

abbrev pub default_socket_dir : String
default_socket_dir = "/tmp"

-- c.Host == "" || strings.HasPrefix(c.Host, "/")
abbrev pub is_socket : String → Bool
is_socket String.[] = true
is_socket (String.◌∷◌ c s) = code c == b'/'

-- Local
unfoldable pub is_local : Config → Bool
is_local c = is_socket c.host

-- Loopback
unfoldable pub is_loopback : ⦃u : Unicode⦄ → Config → Bool
is_loopback ⦃u⦄ c =
    let host = u.to_lower c.host in
    str_eq host "localhost" || str_eq host "127.0.0.1" || str_eq host "::1"

-- The replacer of quote: one pass over the characters.
unfoldable pub escape : String → String
escape String.[] = ""
escape (String.◌∷◌ c s) =
    let rest = escape s in
    if code c == b'\\'
    then "\\\\" ++ rest
    else if code c == b'\''
    then "\\'" ++ rest
    else String.◌∷◌ c rest

-- quote
unfoldable pub quote : String → String
unfolding escape
quote v = "'" ++ escape v ++ "'"

-- dsn
unfoldable pub dsn : Config → String
unfolding quote
dsn c =
    let host = if str_eq c.host "" then default_socket_dir else c.host in
    join " " (
      map (λ (p : String × String). p.0 ++ "=" ++ quote p.1)
        (("host", host) ∷ ("port", show c.port) ∷ ("user", c.user) ∷ ("dbname", c.db_name) ∷ []))

-- Two's complement of 64 bits.
unfoldable pub wrap64 : ℤ → ℤ
wrap64 z =
    let bits = (pos_part z + (neg_part z * 18446744073709551615)) % 18446744073709551616 in
    if ltb bits 9223372036854775808 then pos bits else sub_ℕ bits 18446744073709551616

-- timeoutMillis; Go's division of int64 rounds towards zero.
unfoldable pub timeout_millis : ℤ → ℤ
unfolding wrap64
timeout_millis d =
    let sum = wrap64 (d +ℤ pos 999999) in sub_ℕ (pos_part sum / 1000000) (neg_part sum / 1000000)
