-- ===== src/Report.antt =====
-- internal/report/report.go: the report of one command and the exit code. The fields that only
-- the text layouts read are not modelled; a finding keeps the type of internal/rule, whose fields
-- report.Finding repeats.
pub mod Laws
pub mod Exit
pub mod Redacted
pub mod Render
pub mod Layout
pub mod Oldest
pub mod Waits
pub mod Blocking
use kbdiag.Prelude.{
  ℕ, ◌-◌, ltb, ℤ, pos, pos_part, ltb_ℤ, String, Bool, true, false, Option, none, some, List, [],
  ◌∷◌, ◌++◌, ◌&&◌, length, take, map, str_eq, if◌then◌else◌,
}
use kbdiag.Facts.Base.{Status, Times, Value, Redaction}
use kbdiag.Facts.Base as Facts
use kbdiag.Rule.Base.{Verdict, Finding, Result}

pub record Context : Type 0 where
  pub version : String
  pub role : String
  pub location : String
  pub user : String
  pub database : String
  pub collected_at : String

pub record Probe (F : Type 0) : Type 0 where
  pub status : Status
  pub reason : Option String
  pub columns : List String
  pub rows : List (List (Value F))
  pub truncated : ℕ

-- `probes` is the map Data, one entry for each key.
pub record Report (F : Type 0) : Type 0 where
  pub command : String
  pub verdict : Verdict
  pub context : Context
  pub probes : List (String × Probe F)
  pub findings : List (Finding F)
  pub redacted : List Redaction

-- New
unfoldable pub new : {F T : Type 0} ⦃tm : Times T⦄ → String → Facts.Context T → Result F → Report F
new ⦃tm⦄ command c r = record {
  command = command;
  verdict = r.verdict;
  context = record {
    version = c.version;
    role = c.role;
    location = c.location;
    user = c.user;
    database = c.database;
    collected_at = tm.rfc3339 (tm.truncate_s c.collected_at);
  };
  probes = [];
  findings = r.findings;
  redacted = [];
}

abbrev pub is_collected : Status → Bool
is_collected Status.ok = true
is_collected _ = false

abbrev pub some_reason : String → Option String
some_reason reason = if str_eq reason "" then none else some reason

module _ {F : Type 0} where
  -- limit > 0 && len(rows) > limit
  abbrev pub is_cut : List (List (Value F)) → ℤ → Bool
  is_cut rows limit = ltb_ℤ (pos 0) limit && ltb (pos_part limit) (length rows)

  -- The probe that AddProbe records.
  unfoldable pub probe_of : Status → String → List String → List (List (Value F)) → ℤ → Probe F
  probe_of st reason cols rows limit =
      let cut = is_cut rows limit in
      record {
        status = st;
        reason = some_reason reason;
        columns = cols;
        rows = if is_collected st then (if cut then take (pos_part limit) rows else rows) else [];
        truncated =
            if is_collected st then (if cut then length rows - pos_part limit else 0) else 0;
      }

  -- r.Data[id] = p
  abbrev pub set_probe : String → Probe F → List (String × Probe F) → List (String × Probe F)
  set_probe id p [] = (id, p) ∷ []
  set_probe id p ((j, q) ∷ ps) =
      let rest = set_probe id p ps in if str_eq j id then (id, p) ∷ ps else (j, q) ∷ rest

  -- r.Data[id]
  abbrev pub get_probe : String → List (String × Probe F) → Option (Probe F)
  get_probe id [] = none
  get_probe id ((j, q) ∷ ps) = let rest = get_probe id ps in if str_eq j id then some q else rest

  -- AddProbe
  unfoldable pub add_probe :
      String → Status → String → List String → List (List (Value F)) → ℤ → Report F → Report F
  unfolding probe_of
  add_probe id st reason cols rows limit r = record r {
    probes = set_probe id (probe_of st reason cols rows limit) r.probes;
  }

  -- AddRedacted
  unfoldable pub add_redacted : List Redaction → Report F → Report F
  add_redacted rs r = record r { redacted = r.redacted ++ rs }

-- ExitCode
unfoldable pub exit_code : Verdict → ℕ
exit_code Verdict.ok = 0
exit_code Verdict.warn = 1
exit_code Verdict.fail = 2
exit_code Verdict.unknown = 3
