-- ===== src/Rule/Base.antt =====
-- internal/rule/rule.go: findings, results, thresholds, and how a verdict is made of findings.
use kbdiag.Prelude.{
  pos, String, Bool, true, false, Option, List, [], ◌∷◌, ◌++◌, ◌&&◌, any, if◌then◌else◌,
}
use kbdiag.Facts.Base.{Status, Floats, Value}

pub data Level : Type 0 where
  ok warn fail : Level

pub data Verdict : Type 0 where
  ok warn fail unknown : Verdict

-- The map of fields, as the pairs of its literal.
pub record Evidence (F : Type 0) : Type 0 where
  pub probe_id : String
  pub fields : List (String × Value F)

pub record Next : Type 0 where
  pub kind : String  -- verify | fix
  pub command : String
  pub sql : String
  pub note : String

pub record Finding (F : Type 0) : Type 0 where
  pub id : String
  pub level : Level
  pub symptom : String
  pub evidence : List (Evidence F)
  pub cause : Option String
  pub next : List Next

pub record Result (F : Type 0) : Type 0 where
  pub verdict : Verdict
  pub findings : List (Finding F)

pub record Thresholds (F : Type 0) : Type 0 where
  pub idle_in_txn_warn_s : F
  pub lock_wait_warn_s : F
  pub xact_warn_s : F
  pub prepared_warn_s : F

-- Defaults
unfoldable pub defaults : {F : Type 0} ⦃fl : Floats F⦄ → Thresholds F
defaults ⦃fl⦄ = record {
  idle_in_txn_warn_s = fl.of_int (pos 300);
  lock_wait_warn_s = fl.of_int (pos 10);
  xact_warn_s = fl.of_int (pos 300);
  prepared_warn_s = fl.of_int (pos 900);
}

-- A step to verify, and a step to fix: the struct literals of the code, with the fields that
-- they leave out empty.
abbrev pub verify : String → String → Next
verify command note = record { kind = "verify"; command = command; sql = ""; note = note }

abbrev pub fix : String → String → Next
fix sql note = record { kind = "fix"; command = ""; sql = sql; note = note }

-- collected: (judge, unknown)
unfoldable pub collected : Status → Bool × Bool
collected Status.ok = (true, false)
collected Status.not_applicable = (false, false)
collected _ = (false, true)

abbrev pub is_ok : Verdict → Bool
is_ok Verdict.ok = true
is_ok _ = false

abbrev pub is_unknown : Verdict → Bool
is_unknown Verdict.unknown = true
is_unknown _ = false

-- The loop of verdictOf: FAIL returns at once, WARN is kept.
unfoldable pub highest : {F : Type 0} → List (Finding F) → Verdict → Verdict
highest [] v = v
highest (f ∷ fs) v = elim f.level [
  | Level.fail ↦ Verdict.fail
  | Level.warn ↦ highest fs Verdict.warn
  | Level.ok ↦ highest fs v
]

-- verdictOf
unfoldable pub verdict_of : {F : Type 0} → List (Finding F) → Bool → Verdict
verdict_of fs unseen =
    let v = highest fs Verdict.ok in if is_ok v && unseen then Verdict.unknown else v

-- Result{Verdict: verdictOf(fs, unknown), Findings: fs}
abbrev pub judged : {F : Type 0} → List (Finding F) → Bool → Result F
judged fs unseen = record { verdict = verdict_of fs unseen; findings = fs }

abbrev pub all_findings : {F : Type 0} → List (Result F) → List (Finding F)
all_findings [] = []
all_findings (r ∷ rs) = r.findings ++ all_findings rs

-- Merge
unfoldable pub merge : {F : Type 0} → List (Result F) → Result F
merge rs = judged (all_findings rs) (any (λ r. is_unknown r.verdict) rs)

-- What one round of a rule's loop over the rows does: the row cannot be read, it is passed over,
-- or it gives a finding.
pub data Seen (F : Type 0) : Type 0 where
  hidden quiet : Seen F
  flagged : Finding F → Seen F

-- The findings that a loop appends, in the order of the rows.
unfoldable pub findings_of {ℓ} :
    {A : Type ℓ} {F : Type 0} → (A → Seen F) → List A → List (Finding F)
findings_of judge [] = []
findings_of judge (x ∷ xs) =
    let rest = findings_of judge xs in
    elim (judge x) [ flagged f ↦ f ∷ rest | hidden ↦ rest | quiet ↦ rest ]

abbrev pub is_hidden : {F : Type 0} → Seen F → Bool
is_hidden hidden = true
is_hidden _ = false

-- Whether a loop came to a row that it could not read.
abbrev pub some_hidden {ℓ} : {A : Type ℓ} {F : Type 0} → (A → Seen F) → List A → Bool
some_hidden judge xs = any (λ x. is_hidden (judge x)) xs
