-- ===== src/Probe/Outcome.antt =====
-- internal/probe/probe.go and conn.go: what a query's error makes of a probe, and texts that are
-- kept from the server's version.
use kbdiag.Prelude.{
  String, Bool, true, false, none, some, List, [], ◌∷◌, ◌||◌, not, concat, str_eq, if◌then◌else◌,
  ◌≡◌, refl, arith,
}
use kbdiag.Facts.Base.{Status}
use kbdiag.Conn.Failures.{Failure, Attempt, done, failed}
use kbdiag.Rule.Names.Booleans.{is_prefix_of}
use kbdiag.Report.Render.{fields}

-- classify
unfoldable pub classify : Failure → Status × String
classify e = elim e.answer [
  | none ↦ (Status.error, e.text)
  | some p ↦
      let reason = concat (p.code ∷ ": " ∷ p.message ∷ []) in
      if str_eq p.code "57014" || str_eq p.code "55P03"
      then (Status.skipped, concat ("timeout " ∷ reason ∷ []))
      else if str_eq p.code "42501"
      then (Status.skipped, concat ("insufficient_privilege " ∷ reason ∷ []))
      else (Status.error, reason)
]

-- What a probe that runs one query hands on.
pub record Collected {ℓ} (A : Type ℓ) : Type ℓ where
  pub status : Status
  pub reason : String
  pub rows : List A

-- collectArgs: of what the query and the scan of its rows came to
unfoldable pub collect : {A : Type 0} → Attempt (List A) → Collected A
unfolding classify
collect (done rows) = record { status = Status.ok; reason = ""; rows = rows }
collect (failed e) = record { status = (classify e).0; reason = (classify e).1; rows = [] }

-- trackActivities: of what reading the setting came to
unfoldable pub track_activities : Attempt String → Status × String
unfolding classify
track_activities (failed e) = classify e
track_activities (done track) =
    if not (str_eq track "on")
    then (
      Status.skipped,
      concat ("track_activities=" ∷ track ∷ ": session states and SQL are not recorded" ∷ []),
    )
    else (Status.ok, "")

-- withGrantHint
unfoldable pub with_grant_hint : Status → String → String
with_grant_hint Status.skipped reason =
    if is_prefix_of "insufficient_privilege" reason
    then concat (reason ∷ " (grant USAGE on schema repmgr and SELECT on its tables)" ∷ [])
    else reason
with_grant_hint _ reason = reason

-- shortVersion
abbrev pub first_two : String → List String → String
first_two v (a ∷ b ∷ rest) = concat (a ∷ " " ∷ b ∷ [])
first_two v _ = v

unfoldable pub short_version : String → String
unfolding fields
short_version v = first_two v (fields v)

-- versionNumber
abbrev pub second_word : String → List String → String
second_word v (a ∷ b ∷ rest) = if str_eq a "KingbaseES" then b else v
second_word v _ = v

unfoldable pub version_number : String → String
unfolding fields
version_number v = second_word v (fields v)

abbrev pub is_ok_status : Status → Bool
is_ok_status Status.ok = true
is_ok_status _ = false

-- A probe is ok exactly when its query and the scan of its rows succeeded: an error of any kind
-- becomes another status, and never rows that look empty.
pub collect-ok :
    {A : Type 0} (a : Attempt (List A))
    → is_ok_status (collect a).status
      ≡ elim a as (λ _. Bool) [ done rows ↦ true | failed e ↦ false ]
unfolding collect classify
collect-ok (done rows) = refl
collect-ok (failed e) = ground arith
