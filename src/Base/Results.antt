-- ===== src/Base/Results.antt =====
-- How a call of the program ends: a value, an error (storage/errors.go and the others), a panic.
use Prim.Native.Nat.{ℕ}
use Prim.Native.String.{String}
use mathlib.Core.Bool.{Bool, true, false}

-- The error values of the program. `wrap` is `fmt.Errorf("...: %w", err)`; `other` is an error
-- that foreign code made up.
pub data Error : Type 0 where
  root_with_parent_directory : Error
  no_rows_affected : Error
  directory_without_parent : Error
  directory_not_found : Error
  read_only : Error
  no_root_access : Error
  parsing_id : Error
  notify_failed : Error
  no_reconciler : Error
  expected_one_row : ℕ → Error
  bad_query : Error
  unexpected_type : Error
  other : ℕ → Error
  wrap : String → Error → Error

-- Run-time panics of Go.
pub data Panic : Type 0 where
  nil_dereference index_out_of_range makeslice_len_out_of_range slice_bounds_out_of_range : Panic
  invalid_argument : Panic

-- `err_with` is an error returned beside a value. `diverge` is a loop that has used up its fuel.
pub data Outcome {ℓ} (A : Type ℓ) : Type ℓ where
  ok : A → Outcome A
  err : Error → Outcome A
  err_with : A → Error → Outcome A
  panic : Panic → Outcome A
  diverge : Outcome A

-- `if err != nil { return nil, err }`, in code that keeps no state.
infixl 5 ◌>>=◌
abbrev pub ◌>>=◌ {ℓ κ} : {A : Type ℓ} {B : Type κ} → Outcome A → (A → Outcome B) → Outcome B
ok a >>= f = f a
err e >>= f = err e
err_with a e >>= f = err e
panic p >>= f = panic p
diverge >>= f = diverge

-- Go's `errors.Is(err, target)` for the targets that the program tests.
abbrev pub is_not_found : Error → Bool
is_not_found (wrap m e) = is_not_found e
is_not_found directory_not_found = true
is_not_found e = false

abbrev pub is_parsing_id : Error → Bool
is_parsing_id (wrap m e) = is_parsing_id e
is_parsing_id parsing_id = true
is_parsing_id e = false
