-- ===== src/Rule/Verdicts.antt =====
-- internal/rule/rule.go: what verdictOf and Merge promise.
use kbdiag.Prelude.{
  ℕ, leb, Bool, true, false, List, [], ◌∷◌, ◌++◌, ◌||◌, ◌≡◌, refl, any, any-append, arith,
  if◌then◌else◌,
}
use kbdiag.Rule.Base.{
  Level, Verdict, Finding, Result, highest, verdict_of, judged, merge, all_findings, is_unknown,
}

abbrev pub is_fail : {F : Type 0} → Finding F → Bool
is_fail f = elim f.level [ Level.fail ↦ true | _ ↦ false ]

abbrev pub is_warn : {F : Type 0} → Finding F → Bool
is_warn f = elim f.level [ Level.warn ↦ true | _ ↦ false ]

-- The order of the verdicts: OK, UNKNOWN, WARN, FAIL.
abbrev pub rank : Verdict → ℕ
rank Verdict.ok = 0
rank Verdict.unknown = 1
rank Verdict.warn = 2
rank Verdict.fail = 3

-- The worse of two verdicts.
abbrev pub worse : Verdict → Verdict → Verdict
worse v w = if leb (rank v) (rank w) then w else v

abbrev pub worst : {F : Type 0} → List (Result F) → Verdict
worst [] = Verdict.ok
worst (r ∷ rs) = worse r.verdict (worst rs)

-- The verdict that the levels and the unread input alone decide.
abbrev pub level_verdict : Bool → Bool → Bool → Verdict
level_verdict failing warning unseen =
    if failing
    then Verdict.fail
    else if warning
    then Verdict.warn
    else if unseen
    then Verdict.unknown
    else Verdict.ok

highest-level :
    {F : Type 0} (fs : List (Finding F)) (u : Bool)
    → (highest fs Verdict.ok ≡ level_verdict (any is_fail fs) (any is_warn fs) false)
      × (highest fs Verdict.warn ≡ level_verdict (any is_fail fs) true false)
unfolding highest
highest-level [] u = (refl, refl)
highest-level (f ∷ fs) u = ground (arith, highest-level fs u)

-- Whatever the findings and the unread input: FAIL if a finding is FAIL, else WARN if one is
-- WARN, else UNKNOWN if some input could not be read, else OK.
pub verdict_of_levels :
    {F : Type 0} (fs : List (Finding F)) (u : Bool)
    → verdict_of fs u ≡ level_verdict (any is_fail fs) (any is_warn fs) u
unfolding verdict_of
verdict_of_levels fs u = ground (arith, highest-level fs u)

-- A result whose verdict its findings and some unread input explain.
pub record IsJudged {F : Type 0} (r : Result F) : Type 0 where
  pub unseen : Bool
  pub explained : r.verdict ≡ verdict_of r.findings unseen

pub judged-IsJudged : {F : Type 0} (fs : List (Finding F)) (u : Bool) → IsJudged (judged fs u)
judged-IsJudged fs u = record { unseen = u; explained = refl }

pub if-IsJudged :
    {F : Type 0} (b : Bool) (r s : Result F)
    → IsJudged r
    → IsJudged s
    → IsJudged (if b then r else s)
if-IsJudged true r s j k = j
if-IsJudged false r s j k = k

merge_step :
    {F : Type 0} (fs gs : List (Finding F)) (u w : Bool)
    → verdict_of (fs ++ gs) (is_unknown (verdict_of fs u) || w)
      ≡ worse (verdict_of fs u) (verdict_of gs w)
merge_step fs gs u w = ground (
  arith,
  verdict_of_levels fs u,
  verdict_of_levels gs w,
  verdict_of_levels (fs ++ gs) (is_unknown (verdict_of fs u) || w),
  any-append is_fail fs gs,
  any-append is_warn fs gs,
)

abbrev pub AllJudged : {F : Type 0} → List (Result F) → Type 0
AllJudged [] = Unit
AllJudged (r ∷ rs) = IsJudged r × AllJudged rs

-- Merging results that their findings and unread inputs explain gives the worst of their
-- verdicts: one command's verdict is never better than that of any of its rules.
pub merge-worst : {F : Type 0} (rs : List (Result F)) → AllJudged rs → (merge rs).verdict ≡ worst rs
unfolding merge
merge-worst [] h = unfold verdict_of highest in refl
merge-worst (r ∷ rs) (j, js) = cc (
  j.explained,
  merge-worst rs js,
  merge_step r.findings (all_findings rs) j.unseen (any (λ s. is_unknown s.verdict) rs),
)

pub merge-IsJudged : {F : Type 0} (rs : List (Result F)) → IsJudged (merge rs)
unfolding merge
merge-IsJudged rs = judged-IsJudged (all_findings rs) (any (λ r. is_unknown r.verdict) rs)

pub merge-two :
    {F : Type 0} (r s : Result F)
    → IsJudged r
    → IsJudged s
    → (merge (r ∷ s ∷ [])).verdict ≡ worse r.verdict s.verdict
merge-two r s j k = ground (arith, merge-worst (r ∷ s ∷ []) (j, (k, tt)))
