-- ===== src/Commands/Doubles.antt =====
-- What the code uses of `double` and of the standard library's functions on it.
use carrotdb.Base.{ℕ, Bool, Option}
use carrotdb.Base.Int.{ℤ}
use carrotdb.Commands.Names.{Text}

-- `stod` answers none where it throws; `literal` is a constant of the source.
pub record Doubles (D : Type 0) : Type 0 where
  pub literal : Text → D
  pub stod : Text → Option D
  pub to_text : D → Text
  pub to_int64 : D → ℤ
  pub to_uint32 : D → ℕ
  pub of_uint64 : ℕ → D
  pub is_less : D → D → Bool
  pub minus : D → D → D
  pub over : D → D → D
  pub times : D → D → D
