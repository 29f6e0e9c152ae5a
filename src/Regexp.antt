-- ===== src/Regexp.antt =====
-- The package regexp, a parameter of the code that redacts: `Compile`, `MustCompile` of a constant,
-- `FindAllString` with its limit, if there is one, `MatchString` and `ReplaceAllString`.
use nullfield.Prelude.{ℕ, String, Bool, List, Option}

pub record Regexp (Re : Type 0) : Type 0 where
  pub compile : String → Option Re
  pub must_compile : String → Re
  pub find_all : Re → String → Option ℕ → List String
  pub is_match : Re → String → Bool
  pub replace_all : Re → String → String → String
