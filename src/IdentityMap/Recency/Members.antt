-- ===== src/IdentityMap/Recency/Members.antt =====
-- The keys in the recency window, as a set, and its clock and size
-- (crates/session/src/identity_map/recency.rs).
use ascetic_ddd_rust.Prelude.{
  ℕ, ◌+◌, ◌-◌, ◌≤◌, ◌<◌, [], ◌∷◌, ◌++◌, Bool, false, not, ◌&&◌, ◌||◌, length, length-append,
  drop-append, drop, true, ◌≡◌, refl, arith,
}
use ascetic_ddd_rust.Prelude.HashSet
use ascetic_ddd_rust.Prelude.HashSet.{same}
use ascetic_ddd_rust.IdentityMap.Recency.{
  Recency, u64_mod, new, evict, admit, remove, clear, resize,
}
use ascetic_ddd_rust.IdentityMap.Recency.Entries.{keys}
use ascetic_ddd_rust.IdentityMap.Recency.Lru.{IsValid, admit-view, resize-view, remove-view}

module _ {K : Type 0} (dec : Discrete K) where
  -- The keys in the window.
  pub holds : K → Recency K → Bool
  holds j r = HashSet.contains dec j (keys r.order)

  -- After an admission the window holds the key and what it held, less what it lets go.
  pub holds-admit :
      (r : Recency K) (k j : K)
      → IsValid dec r
      → r.clock + 1 < u64_mod
      → holds j (admit dec k r).0
        ≡ ((same dec k j || holds j r) && not (HashSet.contains dec j (admit dec k r).1))
  unfolding holds
  holds-admit r k j h in_time =
      let v = admit-view dec r k h in_time in
      let others = HashSet.remove dec k (keys r.order) in
      let new : HashSet.contains dec k others ≡ false =
        ground (arith, HashSet.contains-remove dec k k (keys r.order)) in
      let nodup : HashSet.Nodup dec (others ++ k ∷ []) =
        HashSet.snoc-Nodup dec k others new
          (HashSet.remove-Nodup dec k (keys r.order) h.agree.nodup) in
      let n : ℕ = length (others ++ k ∷ []) - r.size in
      rw (v.0, v.1)
        (ground (
          arith,
          HashSet.contains-drop dec n j (others ++ k ∷ []) nodup,
          HashSet.contains-append dec j others (k ∷ []),
          HashSet.contains-remove dec j k (keys r.order),
          HashSet.contains-cons dec j k [],
          HashSet.contains-nil dec j,
        ))

  -- A window of positive size holds the key that it admits.
  pub holds-admit_self :
      (r : Recency K) (k : K)
      → IsValid dec r
      → r.clock + 1 < u64_mod
      → 0 < r.size
      → holds k (admit dec k r).0 ≡ true
  unfolding holds
  holds-admit_self r k h in_time positive =
      let others = HashSet.remove dec k (keys r.order) in
      let n : ℕ = length (others ++ k ∷ []) - r.size in
      let few : n ≤ length others = omega (arith, length-append others (k ∷ [])) in
      rw ((admit-view dec r k h in_time).0, drop-append n others (k ∷ []) few)
        (ground (
          arith,
          HashSet.contains-append dec k (drop n others) (k ∷ []),
          HashSet.contains-cons dec k k [],
        ))

  pub holds-resize :
      (n : ℕ) (r : Recency K) (j : K)
      → IsValid dec r
      → holds j (resize dec n r).0 ≡ (holds j r && not (HashSet.contains dec j (resize dec n r).1))
  unfolding holds
  holds-resize n r j h =
      let v = resize-view dec n r h in
      rw (v.0, v.1) (HashSet.contains-drop dec (length r.order - n) j (keys r.order) h.agree.nodup)

  pub holds-remove :
      (r : Recency K) (k j : K)
      → IsValid dec r
      → holds j (remove dec k r) ≡ (not (same dec k j) && holds j r)
  unfolding holds
  holds-remove r k j h = rw (remove-view dec r k h) (HashSet.contains-remove dec j k (keys r.order))

  pub holds-clear : (r : Recency K) (j : K) → holds j (clear dec r) ≡ false
  unfolding holds clear HashSet.contains
  holds-clear r j = refl

  pub clock-admit-le : (k : K) (r : Recency K) → (admit dec k r).0.clock ≤ r.clock + 1
  unfolding admit evict
  clock-admit-le k r = omega arith

  pub clock-remove : (k : K) (r : Recency K) → (remove dec k r).clock ≡ r.clock
  unfolding remove
  clock-remove k r = refl

  pub clock-clear : (r : Recency K) → (clear dec r).clock ≡ r.clock
  unfolding clear
  clock-clear r = refl

  pub clock-resize : (n : ℕ) (r : Recency K) → (resize dec n r).0.clock ≡ r.clock
  unfolding resize evict
  clock-resize n r = refl

  pub holds-new : (n : ℕ) (j : K) → holds j (new n) ≡ false
  unfolding holds new HashSet.contains
  holds-new n j = refl

  pub size-admit : (k : K) (r : Recency K) → (admit dec k r).0.size ≡ r.size
  unfolding admit evict
  size-admit k r = refl

  pub size-remove : (k : K) (r : Recency K) → (remove dec k r).size ≡ r.size
  unfolding remove
  size-remove k r = refl

  pub size-clear : (r : Recency K) → (clear dec r).size ≡ r.size
  unfolding clear
  size-clear r = refl

  pub size-resize : (n : ℕ) (r : Recency K) → (resize dec n r).0.size ≡ n
  unfolding resize evict
  size-resize n r = refl
