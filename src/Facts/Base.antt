-- ===== src/Facts/Base.antt =====
-- internal/facts/facts.go, and the `any` values that rows and evidence hold.
use kbdiag.Prelude.{
  ℕ, ℤ, pos, eqb_ℤ, String, Bool, Option, none, some, List, [], ◌∷◌, if◌then◌else◌,
}

-- type Status, with its four constants.
pub data Status : Type 0 where
  ok skipped error not_applicable : Status

pub record Context (T : Type 0) : Type 0 where
  pub version : String
  pub role : String  -- primary | standby
  pub location : String  -- local | remote
  pub user : String
  pub database : String
  pub collected_at : T

pub record Redaction : Type 0 where
  pub probe_id : String
  pub field : String
  pub reason : String
  pub rows_affected : ℤ

abbrev pub reason_insufficient_privilege : String
reason_insufficient_privilege = "insufficient_privilege"

abbrev pub reason_track_activities_off : String
reason_track_activities_off = "track_activities_off"

-- float64: what the code does with one. Comparisons with a NaN are false.
pub record Floats (F : Type 0) : Type 0 where
  pub lt : F → F → Bool  -- a < b
  pub le : F → F → Bool  -- a <= b
  pub of_int : ℤ → F  -- float64(n), and a constant
  pub div : F → F → F  -- a / b
  pub abs : F → F  -- math.Abs(a)
  pub round : F → F  -- math.Round(a)
  pub to_int : F → ℤ  -- int64(a)
  pub least : F → F → F  -- min(a, b)
  pub most : F → F → F  -- max(a, b)
  pub ratio : ℤ → ℤ → F  -- the quotient of two big.Int as big.Float, as a float64
  pub fixed0 : F → String  -- fmt.Sprintf("%.0f", a)

-- time.Time: what the code does with one.
pub record Times (T : Type 0) : Type 0 where
  pub after : T → T → Bool  -- a.After(b)
  pub truncate_s : T → T  -- t.Truncate(time.Second)
  pub rfc3339 : T → String  -- t.Format(time.RFC3339)

-- A value of type `any`; a nil pointer is `null`.
pub data Value (F : Type 0) : Type 0 where
  null : Value F
  int : ℤ → Value F
  str : String → Value F
  bool : Bool → Value F
  float : F → Value F
  strs : List String → Value F
  ints : List ℤ → Value F

-- A pointer in an `any`.
module _ {F : Type 0} where
  abbrev pub opt_int : Option ℤ → Value F
  opt_int none = null
  opt_int (some n) = int n

  abbrev pub opt_nat : Option ℕ → Value F
  opt_nat none = null
  opt_nat (some n) = int (pos n)

  abbrev pub opt_str : Option String → Value F
  opt_str none = null
  opt_str (some s) = str s

  abbrev pub opt_bool : Option Bool → Value F
  opt_bool none = null
  opt_bool (some b) = bool b

  abbrev pub opt_float : Option F → Value F
  opt_float none = null
  opt_float (some x) = float x

-- The redaction entries of one reason: none when no row is concerned.
abbrev pub redactions : String → List String → String → ℤ → List Redaction
redactions id [] why n = []
redactions id (f ∷ fs) why n =
    let rest = redactions id fs why n in
    if eqb_ℤ n (pos 0)
    then []
    else (record { probe_id = id; field = f; reason = why; rows_affected = n }) ∷ rest
