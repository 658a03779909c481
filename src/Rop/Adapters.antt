-- ===== src/Rop/Adapters.antt =====
-- The functions that build and join switches, the methods of two-track values, and the macro `all!`
-- (crates/rop/src/adapters.rs, crates/rop/src/ext.rs, crates/rop/src/lib.rs).
pub mod Accumulate
use ascetic_ddd_rust.Prelude.Result.{Result, ok, err, ◌>>=◌, map_err}
use ascetic_ddd_rust.Rop.Errors.{Errors, new, merge, map_errors}

-- A two-track value.
abbrev pub Rop : Type 0 → Type 0 → Type 0
Rop T E = Result (Errors E) T

unfoldable pub succeed : {T E : Type 0} → T → Rop T E
succeed value = ok value

unfoldable pub fail : {T E : Type 0} → E → Rop T E
fail error = err (new error)

pub either : {T E R : Type 0} → (T → R) → (Errors E → R) → Rop T E → R
either success failure (ok value) = success value
either success failure (err errors) = failure errors

pub switch : {X T E : Type 0} → (X → T) → X → Rop T E
switch f x = ok (f x)

pub compose : {A B C E : Type 0} → (A → Rop B E) → (B → Rop C E) → A → Rop C E
compose first second a = first a >>= second

unfoldable pub both : {A B E : Type 0} → Rop A E → Rop B E → Rop (A × B) E
both (ok a) (ok b) = ok (a, b)
both (err errors) (ok b) = err errors
both (ok a) (err errors) = err errors
both (err first) (err second) = err (merge first second)

-- The match of `plus`, of the results of its two switches.
plus_of :
    {T E : Type 0} → (T → T → T) → (Errors E → Errors E → Errors E) → Rop T E → Rop T E → Rop T E
plus_of add_success add_failure (ok a) (ok b) = ok (add_success a b)
plus_of add_success add_failure (err errors) (ok b) = err errors
plus_of add_success add_failure (ok a) (err errors) = err errors
plus_of add_success add_failure (err a) (err b) = err (add_failure a b)

pub plus :
    {X T E : Type 0}
    → (T → T → T)
    → (Errors E → Errors E → Errors E)
    → (X → Rop T E)
    → (X → Rop T E)
    → X
    → Rop T E
unfolding plus_of
plus add_success add_failure first second x = plus_of add_success add_failure (first x) (second x)

pub and_also : {X T E : Type 0} → (X → Rop T E) → (X → Rop T E) → X → Rop T E
unfolding plus
and_also first second = plus (λ value _. value) merge first second

-- `Result::map`
abbrev pub map_ok : {T U E : Type 0} → (T → U) → Rop T E → Rop U E
map_ok f (ok t) = ok (f t)
map_ok f (err e) = err e

-- `RopExt::double_map`
unfoldable pub double_map : {T U E F : Type 0} → (T → U) → (E → F) → Rop T E → Rop U F
double_map success failure r = map_err (map_errors failure) (map_ok success r)

-- `RopExt::apply`
unfoldable pub apply : {A B E : Type 0} → Rop (A → B) E → Rop A E → Rop B E
unfolding both
apply f argument = map_ok (λ p. p.0 p.1) (both f argument)

unfoldable pub all3 : {A B C Er : Type 0} → Rop A Er → Rop B Er → Rop C Er → Rop (A × B × C) Er
unfolding both
all3 a b c = map_ok (λ p. (p.0.0, p.0.1, p.1)) (both (both a b) c)

unfoldable pub all4 :
    {A B C D Er : Type 0} → Rop A Er → Rop B Er → Rop C Er → Rop D Er → Rop (A × B × C × D) Er
unfolding both
all4 a b c d = map_ok (λ p. (p.0.0.0, p.0.0.1, p.0.1, p.1)) (both (both (both a b) c) d)

unfoldable pub all5 :
    {A B C D E Er : Type 0}
    → Rop A Er
    → Rop B Er
    → Rop C Er
    → Rop D Er
    → Rop E Er
    → Rop (A × B × C × D × E) Er
unfolding both
all5 a b c d e =
    map_ok (λ p. (p.0.0.0.0, p.0.0.0.1, p.0.0.1, p.0.1, p.1)) (both (both (both (both a b) c) d) e)

unfoldable pub all6 :
    {A B C D E F Er : Type 0}
    → Rop A Er
    → Rop B Er
    → Rop C Er
    → Rop D Er
    → Rop E Er
    → Rop F Er
    → Rop (A × B × C × D × E × F) Er
unfolding both
all6 a b c d e f =
    map_ok (λ p. (p.0.0.0.0.0, p.0.0.0.0.1, p.0.0.0.1, p.0.0.1, p.0.1, p.1))
      (both (both (both (both (both a b) c) d) e) f)

unfoldable pub all7 :
    {A B C D E F G Er : Type 0}
    → Rop A Er
    → Rop B Er
    → Rop C Er
    → Rop D Er
    → Rop E Er
    → Rop F Er
    → Rop G Er
    → Rop (A × B × C × D × E × F × G) Er
unfolding both
all7 a b c d e f g =
    map_ok (λ p. (p.0.0.0.0.0.0, p.0.0.0.0.0.1, p.0.0.0.0.1, p.0.0.0.1, p.0.0.1, p.0.1, p.1))
      (both (both (both (both (both (both a b) c) d) e) f) g)

unfoldable pub all8 :
    {A B C D E F G H Er : Type 0}
    → Rop A Er
    → Rop B Er
    → Rop C Er
    → Rop D Er
    → Rop E Er
    → Rop F Er
    → Rop G Er
    → Rop H Er
    → Rop (A × B × C × D × E × F × G × H) Er
unfolding both
all8 a b c d e f g h =
    map_ok
      (λ p. (
        p.0.0.0.0.0.0.0, p.0.0.0.0.0.0.1, p.0.0.0.0.0.1, p.0.0.0.0.1, p.0.0.0.1, p.0.0.1, p.0.1,
        p.1,
      ))
      (both (both (both (both (both (both (both a b) c) d) e) f) g) h)
