-- ===== src/Rule/Freeze.antt =====
-- internal/rule/freeze.go
pub mod Laws
pub mod Shell
use Prim.Native.String.{◌++◌}
use Prim.Native.Char.{code}
use kbdiag.Prelude.{
  ℕ, ℤ, pos, ◌-ℤ◌, leb_ℤ, ◌==◌, Bool, true, false, String, Option, none, some, List, [], ◌∷◌, ◌&&◌,
  ◌||◌, not, concat, join, show, str_eq, if◌then◌else◌,
}
use mathlib.Core.List.{◌++◌ as ◌+++◌}
use kbdiag.Unicode.{Unicode}
use kbdiag.Facts.Base.{Status, int, str, null, Value}
use kbdiag.Facts.Freeze.{
  FrozenDatabase, FreezeDatabases, FreezeLimit, FreezeLimits, xid_stop_age, mxid_stop_age,
  freeze_databases_id,
}
use kbdiag.Rule.Base.{
  Level, Finding, Result, Next, Seen, hidden, quiet, flagged, verify, fix, judged, collected,
  findings_of, some_hidden,
}
use kbdiag.Rule.Names.{has_control, replace_char, any_char, is_empty}

-- freezeLimit; `none` is limOK == false.
unfoldable pub freeze_limit : FreezeLimits → Option FreezeLimit
freeze_limit l = elim l.status [
  | Status.ok ↦ elim l.rows [ [] ↦ none | x ∷ rest ↦ some x ]
  | _ ↦ none
]

-- The two texts of ageFinding about one age, to fail with or to warn with.
abbrev xid_fail : ℤ → List String
xid_fail age =
    concat (show age ∷ " xids old, at or past the stop limit " ∷ show xid_stop_age ∷ []) ∷ []

abbrev mxid_fail : ℤ → List String
mxid_fail age =
    concat (show age ∷ " multixacts old, at or past the stop limit " ∷ show mxid_stop_age ∷ []) ∷ []

xid_warn : ℤ → ℤ → List String
xid_warn age most =
    concat (
      show age
      ∷ " xids old, past autovacuum_freeze_max_age "
      ∷ show most
      ∷ " ("
      ∷ show (xid_stop_age -ℤ age)
      ∷ " xids left before new transaction IDs are refused)"
      ∷ [])
    ∷ []

mxid_warn : ℤ → ℤ → List String
mxid_warn age most =
    concat
      (show age ∷ " multixacts old, past autovacuum_multixact_freeze_max_age " ∷ show most ∷ [])
    ∷ []

-- limOK && age >= limit
unfoldable pub past : (FreezeLimit → ℤ) → Option FreezeLimit → ℤ → Bool
past limit none age = false
past limit (some l) age = leb_ℤ (limit l) age

abbrev limit_or : (FreezeLimit → ℤ) → Option FreezeLimit → ℤ
limit_or limit none = pos 0
limit_or limit (some l) = limit l

abbrev has_text : List String → Bool
has_text [] = false
has_text _ = true

-- fail and warn of ageFinding.
unfoldable pub fail_texts : ℤ → ℤ → List String
fail_texts xid mxid =
    (if leb_ℤ xid_stop_age xid then xid_fail xid else [])
    +++ (if leb_ℤ mxid_stop_age mxid then mxid_fail mxid else [])

unfoldable pub warn_texts : Option FreezeLimit → ℤ → ℤ → List String
unfolding past xid_warn mxid_warn
warn_texts lim xid mxid =
    (if not (leb_ℤ xid_stop_age xid) && past (λ l. l.freeze_max_age) lim xid
      then xid_warn xid (limit_or (λ l. l.freeze_max_age) lim)
      else [])
    +++ (if not (leb_ℤ mxid_stop_age mxid) && past (λ l. l.multi_freeze_max_age) lim mxid
        then mxid_warn mxid (limit_or (λ l. l.multi_freeze_max_age) lim)
        else [])

-- A finding of ageFinding, before its evidence and next steps are filled in.
abbrev age_result : {F : Type 0} → String → Level → String → Finding F
age_result id level symptom = record {
  id = id;
  level = level;
  symptom = symptom;
  evidence = [];
  cause = none;
  next = [];
}

-- ageFinding: `hidden` is unknown == true.
unfoldable pub age_finding : {F : Type 0} → String → String → ℤ → ℤ → Option FreezeLimit → Seen F
unfolding fail_texts warn_texts
age_finding id what xid mxid lim =
    let fail = fail_texts xid mxid in
    let warn = warn_texts lim xid mxid in
    if has_text fail
    then flagged (
        age_result id Level.fail (
          concat (
            what
            ∷ " is "
            ∷ join " and " (fail +++ warn)
            ∷ ": the server refuses new transaction IDs or multixacts, so writes fail"
            ∷ [])))
    else if has_text warn
    then flagged (
        age_result id Level.warn (
          concat (
            what
            ∷ " is "
            ∷ join " and " warn
            ∷ ": the anti-wraparound autovacuum is due or cannot finish"
            ∷ [])))
    else elim lim [ none ↦ hidden | some l ↦ quiet ]

abbrev is_fail_level : Level → Bool
is_fail_level Level.fail = true
is_fail_level _ = false

-- shellWord
unfoldable pub shell_word : ⦃u : Unicode⦄ → String → String
shell_word ⦃u⦄ s =
    let word = λ (r : ℕ). u.is_letter r || u.is_digit r || r == b'_' || r == b'-' || r == b'.' in
    if not (is_empty s) && not (any_char (λ r. not (word r)) s)
    then s
    else "'" ++ replace_char b'\'' "'\\''" s ++ "'"

module _ ⦃u : Unicode⦄ where
  -- freezeNext
  unfoldable pub freeze_next : String → Bool → String → Bool → List Next
  freeze_next db allow_conn role stopped =
      let next =
        verify "kbdiag txn" "the oldest transaction or 2PC holding back freezing"
        ∷ verify "kbdiag slots" "a replication slot's xmin holds it back too"
        ∷ [] in
      let look =
        if has_control db
        then verify "kbdiag freeze --json"
            "the database name has control characters and the text shows it escaped: take the raw name from the JSON, then run kbdiag -d <name> freeze"
        else verify (concat ("kbdiag -d " ∷ shell_word db ∷ " freeze" ∷ [])) "its oldest tables" in
      let there =
        if has_control db
        then "connected to that database"
        else concat ("connected to database " ∷ db ∷ []) in
      let where_text =
        if str_eq role "standby" then concat ("on the primary, " ∷ there ∷ []) else there in
      let note = concat (
        where_text
        ∷ ", oldest tables first"
        ∷ (if stopped
            then "; past the stop limit a PG12 kernel only runs it in single-user mode: follow the KES manual on transaction ID wraparound"
            else "")
        ∷ []) in
      if not allow_conn
      then next
      else next +++ (look ∷ fix "VACUUM (FREEZE, VERBOSE) <table>" note ∷ [])

  -- The evidence of a database's finding.
  freeze_fields : {F : Type 0} → FrozenDatabase → Option FreezeLimit → List (String × Value F)
  freeze_fields x lim =
      ("datname", str x.datname)
      ∷ ("xid_age", int x.xid_age)
      ∷ ("mxid_age", int x.mxid_age)
      ∷ ("autovacuum_freeze_max_age", elim lim [ none ↦ null | some l ↦ int l.freeze_max_age ])
      ∷ (
        "autovacuum_multixact_freeze_max_age",
        elim lim [ none ↦ null | some l ↦ int l.multi_freeze_max_age ],
      )
      ∷ []

  -- One round of Freeze's loop.
  unfoldable pub judge_database :
      {F : Type 0} → Option FreezeLimit → String → FrozenDatabase → Seen F
  unfolding freeze_fields
  judge_database lim role x =
      let seen =
        age_finding "freeze.database_age" (concat ("database " ∷ x.datname ∷ [])) x.xid_age
          x.mxid_age lim in
      elim seen [
        | hidden ↦ hidden
        | quiet ↦ quiet
        | flagged f ↦ flagged (record f {
          evidence = (record { probe_id = freeze_databases_id; fields = freeze_fields x lim }) ∷ [];
          next = freeze_next x.datname x.allow_conn role (is_fail_level f.level);
        })
      ]

  -- Freeze
  unfoldable pub freeze : {F : Type 0} → FreezeDatabases → FreezeLimits → String → Result F
  freeze {F} d l role =
      let (judge, unseen) = collected d.status in
      let lim = freeze_limit l in
      if not judge
      then judged [] unseen
      else judged (findings_of (judge_database lim role) d.rows)
          (unseen || some_hidden (judge_database {F = F} lim role) d.rows)
