-- ===== src/Specification/Value/Laws.antt =====
-- What the evaluator relies on, and what arithmetic keeps.
use ascetic_ddd_rust.Prelude.{
  Bool, true, false, not, ◌&&◌, Bool-cases, inl, inr, Option, none, some, ◌≡◌, refl, arith,
}
use ascetic_ddd_rust.Prelude.Int.{ℤ, ◌+ℤ◌, ◌-ℤ◌}
use ascetic_ddd_rust.Prelude.Result.{Result, ok, err, ◌>>=◌}
use ascetic_ddd_rust.Specification.Operator.{Arithmetic, add, sub, mul, div}
use ascetic_ddd_rust.Specification.Operand.{OperandError, out_of_range, IsLawful}
use ascetic_ddd_rust.Specification.Value.{
  Value, int, float, timestamp, interval, Floats, Readers, value_operand, is_null, as_bool, fits,
  compute_float, wrapped, temporal, defined, compute,
}
use ascetic_ddd_rust.Specification.Value.Integer.{in_range, checked, integer, integer-in_range}

module _ {U F : Type 0} where
  -- The integers of a value are `i64`s.
  unfoldable pub is_valid : Value U F → Bool
  is_valid (int a) = in_range a
  is_valid (timestamp a) = in_range a
  is_valid (interval a) = in_range a
  is_valid _ = true

  -- A result, if there is one, is valid.
  ResultIsValid : Result OperandError (Value U F) → Type 0
  ResultIsValid (ok v) = is_valid v ≡ true
  ResultIsValid (err e) = Unit

  DefinedIsValid : Option (Result OperandError (Value U F)) → Type 0
  DefinedIsValid none = Unit
  DefinedIsValid (some result) = ResultIsValid result

module _ {U F : Type 0} (f : Floats F) (r : Readers U) where
  -- The values of the crate are operands as the evaluator supposes them: the null is null, truth
  -- values are not, and they are read back.
  pub value_operand-IsLawful : IsLawful (value_operand f r)
  unfolding value_operand is_null as_bool
  value_operand-IsLawful = record {
    null_is_null = refl;
    bool_not_null = λ b. refl;
    as_bool-from_bool = λ b. refl;
  }

  wrapped-DefinedIsValid :
      (wrap : ℤ → Value U F) (a : ℤ)
      → ((n : ℤ) → in_range n ≡ true → is_valid (wrap n) ≡ true)
      → DefinedIsValid (wrapped f r wrap a)
  unfolding wrapped DefinedIsValid ResultIsValid
  wrapped-DefinedIsValid wrap a h = elim (Bool-cases (in_range a)) [
    | inl fits ↦ unfold checked in rw fits (h a fits)
    | inr out ↦ unfold checked in rw out tt
  ]

  temporal-DefinedIsValid :
      (a : Value U F) (op : Arithmetic) (b : Value U F) → DefinedIsValid (temporal f r a op b)
  unfolding temporal
  temporal-DefinedIsValid (timestamp a) sub (timestamp b) =
      wrapped-DefinedIsValid interval _ (λ n h. unfold is_valid in h)
  temporal-DefinedIsValid (timestamp a) add (interval b) =
      wrapped-DefinedIsValid timestamp _ (λ n h. unfold is_valid in h)
  temporal-DefinedIsValid (interval a) add (timestamp b) =
      wrapped-DefinedIsValid timestamp _ (λ n h. unfold is_valid in h)
  temporal-DefinedIsValid (timestamp a) sub (interval b) =
      wrapped-DefinedIsValid timestamp _ (λ n h. unfold is_valid in h)
  temporal-DefinedIsValid (interval a) add (interval b) =
      wrapped-DefinedIsValid interval _ (λ n h. unfold is_valid in h)
  temporal-DefinedIsValid (interval a) sub (interval b) =
      wrapped-DefinedIsValid interval _ (λ n h. unfold is_valid in h)
  temporal-DefinedIsValid a op b = unfold DefinedIsValid in tt

  fits-DefinedIsValid :
      (overflow underflow : Bool) (x : F) → DefinedIsValid (fits f r overflow underflow x)
  unfolding fits DefinedIsValid ResultIsValid is_valid
  fits-DefinedIsValid true underflow x = tt
  fits-DefinedIsValid false true x = tt
  fits-DefinedIsValid false false x = refl

  float-DefinedIsValid : (op : Arithmetic) (a b : F) → DefinedIsValid (compute_float f r op a b)
  unfolding compute_float DefinedIsValid
  float-DefinedIsValid add a b = fits-DefinedIsValid _ _ _
  float-DefinedIsValid sub a b = fits-DefinedIsValid _ _ _
  float-DefinedIsValid mul a b = fits-DefinedIsValid _ _ _
  float-DefinedIsValid div a b = elim (Bool-cases (f.is_zero b && not (f.is_nan a))) [
    | inl by_zero ↦ rw by_zero (unfold ResultIsValid in tt)
    | inr otherwise ↦ rw otherwise (fits-DefinedIsValid _ _ _)
  ]
  float-DefinedIsValid op a b = tt

  integer-ResultIsValid :
      (op : Arithmetic) (a b : ℤ) (result : Result OperandError ℤ)
      → in_range a ≡ true
      → integer op a b ≡ result
      → ResultIsValid {U = U} {F = F} (do n ← result; ok (int n))
  unfolding ResultIsValid is_valid
  integer-ResultIsValid op a b (ok n) h e = integer-in_range op a b n h e
  integer-ResultIsValid op a b (err x) h e = tt

  defined-DefinedIsValid :
      (op : Arithmetic) (a b : Value U F) → is_valid a ≡ true → DefinedIsValid (defined f r op a b)
  unfolding defined is_valid
  defined-DefinedIsValid op (int a) (int b) h =
      unfold DefinedIsValid in integer-ResultIsValid op a b _ h refl
  defined-DefinedIsValid op (float a) (float b) h = float-DefinedIsValid op a b
  defined-DefinedIsValid op (int a) (float b) h = float-DefinedIsValid op (f.of_int a) b
  defined-DefinedIsValid op (float a) (int b) h = float-DefinedIsValid op a (f.of_int b)
  defined-DefinedIsValid op a b h = temporal-DefinedIsValid a op b

  result-is_valid :
      (o : Option (Result OperandError (Value U F))) (e : OperandError) (v : Value U F)
      → DefinedIsValid o
      → elim o [ some result ↦ result | none ↦ err e ] ≡ ok v
      → is_valid v ≡ true
  unfolding DefinedIsValid ResultIsValid
  result-is_valid none e v d h = cc
  result-is_valid (some (ok w)) e v d h = ground arith
  result-is_valid (some (err x)) e v d h = cc

  -- Arithmetic keeps the integers, the points in time and the spans of values within 64 bits: if
  -- those of the left operand are, those of the result, if there is one, are.
  pub compute-is_valid :
      (op : Arithmetic) (a b v : Value U F)
      → is_valid a ≡ true
      → compute f r op a b ≡ ok v
      → is_valid v ≡ true
  unfolding compute
  compute-is_valid op a b v h e =
      result-is_valid (defined f r op a b) _ v (defined-DefinedIsValid op a b h) e

  back_again : (a b : ℤ) → a +ℤ (b -ℤ a) ≡ b
  unfolding ◌+ℤ◌ ◌-ℤ◌
  back_again a b = ground arith

  failed : (d : Value U F) → ◌≡◌ {A = Result OperandError (Value U F)} (err out_of_range) (ok d) → ⊥
  failed d e = cc

  -- The span between two points in time, if it fits 64 bits, added to the earlier on either side
  -- makes the later, whichever of the two comes first.
  pub compute-span :
      (a b : ℤ) (d : Value U F)
      → in_range b ≡ true
      → compute f r sub (timestamp b) (timestamp a) ≡ ok d
      → (compute f r add (timestamp a) d ≡ ok (timestamp b))
        × (compute f r add d (timestamp a) ≡ ok (timestamp b))
  unfolding compute defined temporal wrapped checked
  compute-span a b d h e = elim (Bool-cases (in_range (b -ℤ a))) [
    | inl in64 ↦
        let is_d : ok (interval (b -ℤ a)) ≡ ok d = rw in64 at e in
        let d_is : d ≡ interval (b -ℤ a) = cc in rw (d_is, back_again a b, h) (refl, refl)
    | inr out ↦ absurd (failed d (rw out at e))
  ]
