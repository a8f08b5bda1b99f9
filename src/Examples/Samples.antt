-- ===== src/Examples/Samples.antt =====
-- Numbers, times and character classes to run the rules with, and rows for them.
use kbdiag.Prelude.{
  ℕ, ◌/◌, min, max, ltb, leb, ℤ, pos, pos_part, String, Bool, true, false, Option, none, some, List,
  [], ◌∷◌, ◌&&◌, ◌||◌, show_ℕ, str_eq,
}
use kbdiag.Unicode.{Unicode}
use kbdiag.Facts.Base.{Status, Floats, Times}
use kbdiag.Facts.Base as Facts
use kbdiag.Facts.Session.{Session, SessionActivity}
use kbdiag.Facts.Lock.{Lock, LockList}
use kbdiag.Facts.Txn.{Prepared, TxnPrepared}
use kbdiag.Facts.Seq.{Sequence}
use kbdiag.Rule.Base.{Thresholds}

-- Whole numbers for float64.
instance abbrev pub whole_floats : Floats ℕ
whole_floats = record {
  lt = ltb;
  le = leb;
  of_int = pos_part;
  div = λ a b. a / b;
  abs = λ a. a;
  round = λ a. a;
  to_int = pos;
  least = min;
  most = max;
  ratio = λ a b. pos_part a / pos_part b;
  fixed0 = show_ℕ;
}

-- Seconds since an epoch for time.Time.
instance abbrev pub epoch_times : Times ℕ
epoch_times = record { after = λ a b. ltb b a; truncate_s = λ t. t; rfc3339 = show_ℕ }

-- ASCII, without folding.
instance abbrev pub ascii : Unicode
ascii = record {
  equal_fold = str_eq;
  to_lower = λ s. s;
  trim_space = λ s. s;
  is_letter = λ r. leb b'a' r && leb r b'z' || leb b'A' r && leb r b'Z';
  is_digit = λ r. leb b'0' r && leb r b'9';
}

abbrev pub limits : Thresholds ℕ
limits = record {
  idle_in_txn_warn_s = 300;
  lock_wait_warn_s = 10;
  xact_warn_s = 300;
  prepared_warn_s = 900;
}

-- A session in the given state for so many seconds, its transaction as old.
abbrev pub session_of : ℕ → Option String → Option ℕ → Option String → Session ℕ
session_of pid state age query = record {
  pid = pos pid;
  usename = some "app";
  datname = some "orders";
  application_name = some "api";
  client_addr = some "10.0.0.7";
  backend_type = some "client backend";
  state = state;
  backend_xid = none;
  backend_xmin = none;
  xact_age_s = age;
  query_age_s = age;
  state_age_s = age;
  wait_event_type = none;
  wait_event = none;
  query = query;
}

-- Pid 41 sits in a transaction for ten minutes, and what pid 42 does is masked.
abbrev pub idle_and_masked : SessionActivity ℕ
idle_and_masked = record {
  status = Status.ok;
  reason = "";
  rows =
      session_of 41 (some "idle in transaction") (some 600) (some "update t")
      ∷ session_of 42 none none (some "<insufficient privilege>")
      ∷ [];
}

abbrev pub only_masked : SessionActivity ℕ
only_masked = record {
  status = Status.ok;
  reason = "";
  rows = session_of 42 none none (some "<insufficient privilege>") ∷ [];
}

abbrev pub lock_of : ℕ → Bool → Option ℕ → List ℤ → Lock ℕ
lock_of pid granted wait by = record {
  pid = some (pos pid);
  locktype = "relation";
  relation = some "t";
  mode = "AccessExclusiveLock";
  granted = granted;
  wait_s = wait;
  blocked_by = by;
  masked = false;
}

-- Pid 43 has waited half a minute for pid 41, which two locks of pid 41 hold up.
abbrev pub lock_rows : List (Lock ℕ)
lock_rows =
    lock_of 41 true none []
    ∷ lock_of 43 false (some 30) (pos 41 ∷ pos 41 ∷ pos 0 ∷ [])
    ∷ lock_of 44 true none []
    ∷ []

abbrev pub waiting_locks : LockList ℕ
waiting_locks = record { status = Status.ok; reason = ""; rows = lock_rows }

abbrev pub prepared_of : String → ℕ → Prepared ℕ ℕ
prepared_of gid age = record {
  gid = gid;
  owner = "app";
  database = "orders";
  prepared_at = 0;
  age_s = age;
  transaction = 7;
}

abbrev pub prepared_rows : TxnPrepared ℕ ℕ
prepared_rows = record { status = Status.ok; reason = ""; rows = prepared_of "tx-1" 1000 ∷ [] }

abbrev pub sequence_of : ℕ → ℕ → Option ℤ → Sequence
sequence_of most step last = record {
  schemaname = "public";
  sequencename = "order_id";
  data_type = "integer";
  start_value = pos 1;
  min_value = pos 1;
  max_value = pos most;
  increment_by = pos step;
  cycle = false;
  cache_size = pos 1;
  last_value = last;
  readable = true;
}

abbrev pub context : Facts.Context ℕ
context = record {
  version = "V8R6";
  role = "primary";
  location = "local";
  user = "system";
  database = "orders";
  collected_at = 1000;
}
