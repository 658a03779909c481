-- ===== src/IdentityMap/Recency/Entries.antt =====
-- The entries of the order, by key: each key of the window stands once, under the tick that the
-- map of ticks gives it.
use ascetic_ddd_rust.Prelude.{
  ℕ, zero, suc, ◌≤◌, ◌<◌, List, [], ◌∷◌, ◌++◌, Option, none, some, true, false, length, drop, ◌≡◌,
  refl, ite, inl, inr, Option-cases, if_pos, if_neg, arith, ap,
}
use ascetic_ddd_rust.Prelude.HashSet
use ascetic_ddd_rust.Prelude.BTreeMap
use ascetic_ddd_rust.IdentityMap.Recency.{unstamp}

abbrev pub keys : {K : Type 0} → List (ℕ × K) → List K
keys [] = []
keys ((t, k) ∷ order) = k ∷ keys order

abbrev pub AllLe : {K : Type 0} → ℕ → List (ℕ × K) → Type 0
AllLe n [] = Unit
AllLe n ((t, k) ∷ order) = (t ≤ n) × AllLe n order

module _ {K : Type 0} where
  weaken-Above : (n m : ℕ) (o : List (ℕ × K)) → n < m → BTreeMap.Above m o → BTreeMap.Above n o
  unfolding BTreeMap.Above
  weaken-Above n m [] h a = a
  weaken-Above n m ((s, i) ∷ o) h a = (omega arith, a.1)

module _ {K : Type 0} (dec : Discrete K) where
  abbrev pub tick_of : K → List (ℕ × K) → Option ℕ
  tick_of k [] = none
  tick_of k ((t, j) ∷ order) = ite (dec j k) (some t) (tick_of k order)

  abbrev pub drop_key : K → List (ℕ × K) → List (ℕ × K)
  drop_key k [] = []
  drop_key k ((t, j) ∷ order) = ite (dec j k) (drop_key k order) ((t, j) ∷ drop_key k order)

  pub keys-drop_key :
      (k : K) (o : List (ℕ × K)) → keys (drop_key k o) ≡ HashSet.remove dec k (keys o)
  unfolding HashSet.remove
  keys-drop_key k [] = refl
  keys-drop_key k ((t, j) ∷ o) = ground (arith, keys-drop_key k o)

  pub tick_of-drop_key :
      (j k : K) (o : List (ℕ × K)) → tick_of j (drop_key k o) ≡ ite (dec k j) none (tick_of j o)
  tick_of-drop_key j k [] = ground arith
  tick_of-drop_key j k ((t, i) ∷ o) = ground (arith, tick_of-drop_key j k o)

  pub tick_of-snoc :
      (j k : K) (n : ℕ) (o : List (ℕ × K))
      → tick_of k o ≡ none
      → tick_of j (o ++ (n, k) ∷ []) ≡ ite (dec k j) (some n) (tick_of j o)
  tick_of-snoc j k n [] h = ground arith
  tick_of-snoc j k n ((t, i) ∷ o) h = ground (arith, tick_of-snoc j k n o)

  -- A key has a tick exactly when it is among the keys.
  pub tick_of-none :
      (k : K) (o : List (ℕ × K)) → tick_of k o ≡ none → HashSet.contains dec k (keys o) ≡ false
  unfolding HashSet.contains
  tick_of-none k [] h = refl
  tick_of-none k ((t, i) ∷ o) h = ground (arith, tick_of-none k o)

  pub tick_of-some :
      (k : K) (t : ℕ) (o : List (ℕ × K))
      → tick_of k o ≡ some t
      → HashSet.contains dec k (keys o) ≡ true
  unfolding HashSet.contains
  tick_of-some k t [] h = cc
  tick_of-some k t ((s, i) ∷ o) h = ground (arith, tick_of-some k t o)

  pub tick_of_absent :
      (k : K) (o : List (ℕ × K)) → HashSet.contains dec k (keys o) ≡ false → tick_of k o ≡ none
  unfolding HashSet.contains
  tick_of_absent k [] h = refl
  tick_of_absent k ((t, i) ∷ o) h = ground (arith, tick_of_absent k o)

  pub drop_key_absent :
      (k : K) (o : List (ℕ × K)) → HashSet.contains dec k (keys o) ≡ false → drop_key k o ≡ o
  unfolding HashSet.contains
  drop_key_absent k [] h = refl
  drop_key_absent k ((t, i) ∷ o) h = ground (arith, drop_key_absent k o)

  tick_of-Above :
      (k : K) (t low : ℕ) (o : List (ℕ × K)) → BTreeMap.Above low o → tick_of k o ≡ some t → low < t
  unfolding BTreeMap.Above
  tick_of-Above k t low [] a h = cc
  tick_of-Above k t low ((s, i) ∷ o) a h = ground (arith, tick_of-Above k t s o)

  -- To remove the entry of a key's tick is to remove the key.
  pub unstamp-tick_of :
      (k : K) (low : ℕ) (o : List (ℕ × K))
      → BTreeMap.Above low o
      → HashSet.Nodup dec (keys o)
      → unstamp (tick_of k o) o ≡ drop_key k o
  unfolding unstamp BTreeMap.remove BTreeMap.Above
  unstamp-tick_of k low [] a d = refl
  unstamp-tick_of k low ((s, i) ∷ o) a d = elim (Option-cases (tick_of k o)) [
    | inl e ↦ ground (arith, drop_key_absent k o, tick_of-none k o, unstamp-tick_of k s o a.1 d.1)
    | inr (t, e) ↦ ground (
      arith,
      drop_key_absent k o,
      tick_of-some k t o,
      tick_of-Above k t s o a.1,
      unstamp-tick_of k s o a.1 d.1,
    )
  ]

  pub drop_key-Above :
      (k : K) (low : ℕ) (o : List (ℕ × K))
      → BTreeMap.Above low o
      → BTreeMap.Above low (drop_key k o)
  unfolding BTreeMap.Above
  drop_key-Above k low [] a = a
  drop_key-Above k low ((s, i) ∷ o) a = elim (dec i k) [
    | yes p ↦ rw (if_pos _ p) (weaken-Above low s (drop_key k o) a.0 (drop_key-Above k s o a.1))
    | no p ↦ rw (if_neg _ p) (a.0, drop_key-Above k s o a.1)
  ]

  pub length-drop_key-le : (k : K) (o : List (ℕ × K)) → length (drop_key k o) ≤ length o
  length-drop_key-le k [] = omega arith
  length-drop_key-le k ((s, i) ∷ o) = ground (arith, length-drop_key-le k o)

  pub drop_key-AllLe : (k : K) (n : ℕ) (o : List (ℕ × K)) → AllLe n o → AllLe n (drop_key k o)
  drop_key-AllLe k n [] a = a
  drop_key-AllLe k n ((s, i) ∷ o) a = ground (arith, drop_key-AllLe k n o)

module _ {K : Type 0} where
  -- A tick above all others is entered at the end.
  pub insert_last :
      (k : K) (n m : ℕ) (o : List (ℕ × K))
      → AllLe n o
      → n < m
      → BTreeMap.insert m k o ≡ o ++ (m, k) ∷ []
  unfolding BTreeMap.insert
  insert_last k n m [] a h = refl
  insert_last k n m ((s, i) ∷ o) a h = ground (arith, insert_last k n m o)

  pub snoc-Above :
      (k : K) (low n m : ℕ) (o : List (ℕ × K))
      → AllLe n o
      → BTreeMap.Above low o
      → n < m
      → low < m
      → BTreeMap.Above low (o ++ (m, k) ∷ [])
  unfolding BTreeMap.Above
  snoc-Above k low n m [] a b h l = (l, tt)
  snoc-Above k low n m ((s, i) ∷ o) a b h l = (b.0, snoc-Above k s n m o a.1 b.1 h (omega arith))

  pub snoc-AllLe :
      (k : K) (n m : ℕ) (o : List (ℕ × K)) → AllLe n o → n < m → AllLe m (o ++ (m, k) ∷ [])
  snoc-AllLe k n m [] a h = omega arith
  snoc-AllLe k n m ((s, i) ∷ o) a h = (omega arith, snoc-AllLe k n m o a.1 h)

  pub keys-append : (o p : List (ℕ × K)) → keys (o ++ p) ≡ keys o ++ keys p
  keys-append [] p = refl
  keys-append ((s, i) ∷ o) p = ap (◌∷◌ i) (keys-append o p)

  pub length-keys : (o : List (ℕ × K)) → length (keys o) ≡ length o
  length-keys [] = refl
  length-keys ((s, i) ∷ o) = ap suc (length-keys o)

  pub keys-drop : (n : ℕ) (o : List (ℕ × K)) → keys (drop n o) ≡ drop n (keys o)
  keys-drop zero o = refl
  keys-drop (suc n) [] = refl
  keys-drop (suc n) ((s, i) ∷ o) = keys-drop n o

  pub drop-Above :
      (low n : ℕ) (o : List (ℕ × K)) → BTreeMap.Above low o → BTreeMap.Above low (drop n o)
  unfolding BTreeMap.Above
  drop-Above low zero o a = a
  drop-Above low (suc n) [] a = a
  drop-Above low (suc n) ((s, i) ∷ o) a = drop-Above low n o (weaken-Above low s o a.0 a.1)

  pub drop-AllLe : (top n : ℕ) (o : List (ℕ × K)) → AllLe top o → AllLe top (drop n o)
  drop-AllLe top zero o a = a
  drop-AllLe top (suc n) [] a = a
  drop-AllLe top (suc n) ((s, i) ∷ o) a = drop-AllLe top n o a.1
