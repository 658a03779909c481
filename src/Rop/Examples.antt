-- ===== src/Rop/Examples.antt =====
-- Validations of numbers, with numbers for errors.
use ascetic_ddd_rust.Prelude.{ℕ, [], ◌∷◌, ◌++◌, ◌≡◌, ltb, Bool}
use ascetic_ddd_rust.Prelude.Result.{ok, err}
use ascetic_ddd_rust.Rop.Errors.{Errors}
use ascetic_ddd_rust.Rop.Adapters.{Rop, all8}
use ascetic_ddd_rust.Rop.Adapters.Accumulate
use ascetic_ddd_rust.Rop.Adapters.Accumulate.{reported, success, zip_options, first_of}

abbrev one : Errors ℕ
one = record { head = 1; tail = [] }

abbrev two_three : Errors ℕ
two_three = record { head = 2; tail = 3 ∷ [] }

abbrev failed : Rop ℕ ℕ
failed = err one

abbrev failed_twice : Rop ℕ ℕ
failed_twice = err two_three

abbrev passed : Rop ℕ ℕ
passed = ok 7

all8_reports_example :
    reported (all8 failed passed failed_twice passed passed failed passed failed)
    ≡ reported failed
      ++ reported passed
      ++ reported failed_twice
      ++ reported passed
      ++ reported passed
      ++ reported failed
      ++ reported passed
      ++ reported failed
all8_reports_example =
    Accumulate.all8_reports failed passed failed_twice passed passed failed passed failed

abbrev positive : ℕ → Rop ℕ ℕ
positive n = elim (ltb 0 n) [ Bool.true ↦ ok n | Bool.false ↦ err one ]

abbrev small : ℕ → Rop ℕ ℕ
small n = elim (ltb n 9) [ Bool.true ↦ ok n | Bool.false ↦ err two_three ]
