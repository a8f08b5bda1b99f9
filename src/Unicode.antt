-- ===== src/Unicode.antt =====
-- The functions of Go's strings and unicode packages that rest on Unicode's case and letter
-- tables enter as a value of this record.
use kbdiag.Prelude.{ℕ, String, Bool}

pub record Unicode : Type 0 where
  pub equal_fold : String → String → Bool  -- strings.EqualFold
  pub to_lower : String → String  -- strings.ToLower
  pub trim_space : String → String  -- strings.TrimSpace
  pub is_letter : ℕ → Bool  -- unicode.IsLetter
  pub is_digit : ℕ → Bool  -- unicode.IsDigit
