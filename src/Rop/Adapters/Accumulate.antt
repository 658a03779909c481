-- ===== src/Rop/Adapters/Accumulate.antt =====
-- Independent results report every failure.
use ascetic_ddd_rust.Prelude.{List, [], ◌++◌, ◌≡◌, refl, ap, ◌∙◌, Option, none, some}
use mathlib.Core.List.{append-nil}
use ascetic_ddd_rust.Prelude.Result.{ok, err}
use ascetic_ddd_rust.Rop.Errors.{into_vec, merge, merge_assoc}
use ascetic_ddd_rust.Rop.Adapters.{Rop, map_ok, both, plus, plus_of, and_also, all8}

-- The errors that a two-track value reports.
abbrev pub reported : {T E : Type 0} → Rop T E → List E
reported (ok value) = []
reported (err errors) = into_vec errors

-- The value of a success.
abbrev pub success : {T E : Type 0} → Rop T E → Option T
success (ok value) = some value
success (err errors) = none

-- Two results are paired by pairing their options.
abbrev pub zip_options : {A B : Type 0} → Option A → Option B → Option (A × B)
zip_options (some a) (some b) = some (a, b)
zip_options (some a) none = none
zip_options none b = none

module _ {A B E : Type 0} where
  -- A pair of results succeeds exactly when both do, with both values, and reports the errors of
  -- the first and then those of the second.
  pub both_reports :
      (a : Rop A E) (b : Rop B E)
      → (reported (both a b) ≡ reported a ++ reported b)
        × (success (both a b) ≡ zip_options (success a) (success b))
  unfolding both merge
  both_reports (ok a) (ok b) = (refl, refl)
  both_reports (ok a) (err e) = (refl, refl)
  both_reports (err e) (ok b) = (simp append-nil, refl)
  both_reports (err e) (err f) = (refl, refl)

  reported-map_ok : (f : A → B) (a : Rop A E) → reported (map_ok f a) ≡ reported a
  reported-map_ok f (ok a) = refl
  reported-map_ok f (err e) = refl

module _ {A B C D F G H I E : Type 0} where
  -- `all!` of eight results reports the errors of each, in order.
  pub all8_reports :
      (a : Rop A E) (b : Rop B E) (c : Rop C E) (d : Rop D E) (e : Rop F E) (f : Rop G E)
      (g : Rop H E) (h : Rop I E)
      → reported (all8 a b c d e f g h)
        ≡ reported a
          ++ reported b
          ++ reported c
          ++ reported d
          ++ reported e
          ++ reported f
          ++ reported g
          ++ reported h
  unfolding all8
  all8_reports a b c d e f g h =
      reported-map_ok _ (both (both (both (both (both (both (both a b) c) d) e) f) g) h)
      ∙ rw
          (
            (both_reports (both (both (both (both (both (both a b) c) d) e) f) g) h).0,
            (both_reports (both (both (both (both (both a b) c) d) e) f) g).0,
            (both_reports (both (both (both (both a b) c) d) e) f).0,
            (both_reports (both (both (both a b) c) d) e).0,
            (both_reports (both (both a b) c) d).0,
            (both_reports (both a b) c).0,
            (both_reports a b).0,
          )
          refl

module _ {A B C E : Type 0} where
  -- How results are nested makes no difference to what is reported.
  pub both_assoc :
      (a : Rop A E) (b : Rop B E) (c : Rop C E)
      → map_ok (λ p. (p.0.0, (p.0.1, p.1))) (both (both a b) c) ≡ both a (both b c)
  unfolding both
  both_assoc (ok a) (ok b) (ok c) = refl
  both_assoc (ok a) (ok b) (err e) = refl
  both_assoc (ok a) (err e) (ok c) = refl
  both_assoc (ok a) (err e) (err f) = refl
  both_assoc (err e) (ok b) (ok c) = refl
  both_assoc (err e) (ok b) (err f) = refl
  both_assoc (err e) (err f) (ok c) = refl
  both_assoc (err e) (err f) (err g) = ap err (merge_assoc e f g)

-- The first of two values, if there are two.
abbrev pub first_of : {T : Type 0} → Option T → Option T → Option T
first_of (some a) (some b) = some a
first_of (some a) none = none
first_of none b = none

module _ {T E : Type 0} where
  plus_of_reports :
      (a b : Rop T E)
      → (reported (plus_of (λ value _. value) merge a b) ≡ reported a ++ reported b)
        × (success (plus_of (λ value _. value) merge a b) ≡ first_of (success a) (success b))
  unfolding plus_of merge
  plus_of_reports (ok a) (ok b) = (refl, refl)
  plus_of_reports (ok a) (err e) = (refl, refl)
  plus_of_reports (err e) (ok b) = (simp append-nil, refl)
  plus_of_reports (err e) (err f) = (refl, refl)

  -- Two validations of one value report the errors of the first and then those of the second; when
  -- there are none, the result is the value of the first.
  pub and_also_reports :
      {X : Type 0} (first second : X → Rop T E) (x : X)
      → (reported (and_also first second x) ≡ reported (first x) ++ reported (second x))
        × (success (and_also first second x) ≡ first_of (success (first x)) (success (second x)))
  unfolding and_also plus
  and_also_reports first second x = plus_of_reports (first x) (second x)
