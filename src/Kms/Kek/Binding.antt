-- ===== src/Kms/Kek/Binding.antt =====
-- The associated data of a wrap tells tenants and contexts apart.
use ascetic_ddd_rust.Prelude.{
  ℕ, ◌/◌, ◌%◌, ◌<◌, [], ◌∷◌, ◌++◌, Option, none, some, ◌≡◌, refl, sym, ap, arith, length, min,
}
use ascetic_ddd_rust.Kms.Key.{Bytes, to_be_bytes}
use ascetic_ddd_rust.Kms.Kek.{binding}

-- A text of fewer than 2^24 bytes, none of which is zero.
abbrev AllPositive : Bytes → Type 0
AllPositive [] = Unit
AllPositive (x ∷ xs) = (0 < x) × AllPositive xs

abbrev pub IsId : Bytes → Type 0
IsId xs = AllPositive xs × (length xs < 16777216)

++_split :
    (xs xs' ys ys' : Bytes)
    → length xs ≡ length xs'
    → xs ++ ys ≡ xs' ++ ys'
    → (xs ≡ xs') × (ys ≡ ys')
++_split [] [] ys ys' h e = (refl, e)
++_split [] (x ∷ xs') ys ys' h e = absurd (omega arith)
++_split (x ∷ xs) [] ys ys' h e = absurd (omega arith)
++_split (x ∷ xs) (x' ∷ xs') ys ys' h e =
    let head : x ≡ x' = cc in
    let tail : xs ++ ys ≡ xs' ++ ys' = cc in
    let rest = ++_split xs xs' ys ys' (omega arith) tail in let same = rest.0 in (cc, rest.1)

-- The length of a text is what its four bytes say.
length-to_be_bytes :
    (n m : ℕ) → n < 4294967296 → m < 4294967296 → to_be_bytes n ≡ to_be_bytes m → n ≡ m
unfolding to_be_bytes
length-to_be_bytes n m small small' e =
    let h0 : n / 256 / 256 / 256 % 256 ≡ m / 256 / 256 / 256 % 256 = cc in
    let h1 : n / 256 / 256 % 256 ≡ m / 256 / 256 % 256 = cc in
    let h2 : n / 256 % 256 ≡ m / 256 % 256 = cc in let h3 : n % 256 ≡ m % 256 = cc in omega arith

prefix_split :
    (n m : ℕ) (xs ys : Bytes)
    → to_be_bytes n ++ xs ≡ to_be_bytes m ++ ys
    → (to_be_bytes n ≡ to_be_bytes m) × (xs ≡ ys)
unfolding to_be_bytes
prefix_split n m xs ys e = ++_split (to_be_bytes n) (to_be_bytes m) xs ys refl e

-- An id does not begin as the length of one does.
apart : (t : Bytes) (n : ℕ) (rest : Bytes) → IsId t → n < 16777216 → t ≡ to_be_bytes n ++ rest → ⊥
unfolding to_be_bytes
apart [] n rest i small e = absurd (cc)
apart (x ∷ xs) n rest i small e =
    let head : x ≡ n / 256 / 256 / 256 % 256 = cc in let positive = i.0.0 in absurd (omega arith)

contexts_split :
    (t t' c c' : Bytes)
    → length t < 4294967296
    → length t' < 4294967296
    → binding t (some c) ≡ binding t' (some c')
    → (t ≡ t') × (c ≡ c')
unfolding binding
contexts_split t t' c c' small small' e =
    let (lengths, rest) =
      prefix_split (min (length t) 4294967295) (min (length t') 4294967295) (t ++ c) (t' ++ c') e in
    let same = length-to_be_bytes _ _ (omega arith) (omega arith) lengths in
    ++_split t t' c c' (omega arith) rest

-- Keys of two tenants, or of two contexts of one, or of a context and of none, wrap under different
-- associated data, for ids of tenants of fewer than 2^24 bytes, none of them zero.
pub binding-injective :
    (t t' : Bytes) (c c' : Option Bytes)
    → IsId t
    → IsId t'
    → binding t c ≡ binding t' c'
    → (t ≡ t') × (c ≡ c')
unfolding binding
binding-injective t t' none none i i' e = (e, refl)
binding-injective t t' none (some c') i i' e =
    absurd (apart t (min (length t') 4294967295) (t' ++ c') i (omega arith) e)
binding-injective t t' (some c) none i i' e =
    absurd (apart t' (min (length t) 4294967295) (t ++ c) i' (omega arith) (sym e))
binding-injective t t' (some c) (some c') i i' e =
    let (same, contexts) = contexts_split t t' c c' (omega arith) (omega arith) e in
    (same, ap (λ x. some x) contexts)
