-- ===== src/IdentityMap/Recency/Lru.antt =====
-- The recency window is a queue of keys by last use (crates/session/src/identity_map/recency.rs):
-- the abstract view is the list of its keys, oldest first.
use ascetic_ddd_rust.Prelude.{
  ℕ, suc, ◌+◌, ◌-◌, ◌%◌, ◌≤◌, ◌<◌, List, [], ◌∷◌, ◌++◌, false, length, length-drop, take, drop, ◌≡◌,
  ◌∙◌, refl, sym, arith, tests, ap, ltb, inl, inr, Bool-cases,
}
use ascetic_ddd_rust.Prelude.HashMap
use ascetic_ddd_rust.Prelude.HashSet
use ascetic_ddd_rust.Prelude.HashSet.{same}
use ascetic_ddd_rust.Prelude.BTreeMap
use ascetic_ddd_rust.IdentityMap.Recency.{
  Recency, u64_mod, unstamp, new, evict_loop, evict, admit, remove, clear, resize,
}
use ascetic_ddd_rust.IdentityMap.Recency.Entries.{
  keys, AllLe, tick_of, drop_key, keys-drop_key, tick_of-drop_key, tick_of-snoc, tick_of_absent,
  unstamp-tick_of, drop_key-Above, drop_key-AllLe, insert_last, snoc-Above, snoc-AllLe, keys-append,
  length-keys, keys-drop, drop-Above, drop-AllLe, length-drop_key-le,
}

module _ {K : Type 0} (dec : Discrete K) where
  -- The map of ticks and the order tell the same of every key, and no key stands twice.
  pub record Agree (ticks : List (K × ℕ)) (order : List (ℕ × K)) : Type 0 where
    pub same_tick : (k : K) → HashMap.find dec k ticks ≡ tick_of dec k order
    pub nodup : HashSet.Nodup dec (keys order)

  pub record IsValid (r : Recency K) : Type 0 where
    pub agree : Agree r.ticks r.order
    pub above : BTreeMap.Above 0 r.order
    pub below : AllLe r.clock r.order
    pub bounded : length r.order ≤ r.size

  pop-Agree :
      (t : ℕ) (k : K) (ticks : List (K × ℕ)) (o : List (ℕ × K))
      → Agree ticks ((t, k) ∷ o)
      → Agree (HashMap.remove dec k ticks) o
  pop-Agree t k ticks o a = record {
    same_tick = λ j.
        ground (arith, HashMap.find-remove dec j k ticks, a.same_tick j, tick_of_absent dec k o);
    nodup = a.nodup.1;
  }

  -- What `evict` leaves and lets go, for an order of any length.
  abbrev Evicted : ℕ → List (ℕ × K) → List (K × ℕ) × List (ℕ × K) × List K → Type 0
  Evicted size o res =
      Agree res.0 res.1
      × (res.1 ≡ drop (length o - size) o)
      × (res.2 ≡ take (length o - size) (keys o))

  evict_loop-Evicted :
      (size : ℕ) (ticks : List (K × ℕ)) (o : List (ℕ × K))
      → Agree ticks o
      → Evicted size o (evict_loop dec size ticks o)
  unfolding evict_loop
  evict_loop-Evicted size ticks [] a = (a, ground arith, ground arith)
  evict_loop-Evicted size ticks ((t, k) ∷ o) a =
      let ih = evict_loop-Evicted size (HashMap.remove dec k ticks) o (pop-Agree t k ticks o a) in
      elim (Bool-cases (ltb size (suc (length o)))) [
        | inl more ↦
            let e : suc (length o) - size ≡ suc (length o - size) = omega (tests) in
            rw (more, e) (ih.0, ih.1, ap (◌∷◌ k) ih.2)
        | inr fits ↦
            let e : suc (length o) - size ≡ 0 = ground arith in rw (fits, e) (a, refl, refl)
      ]

  -- What the loop needs of a window whose order may be too long.
  record IsStamped (r : Recency K) : Type 0 where
    agree : Agree r.ticks r.order
    above : BTreeMap.Above 0 r.order
    below : AllLe r.clock r.order

  evict-IsValid : (r : Recency K) → IsStamped r → IsValid (evict dec r).0
  unfolding evict
  evict-IsValid r h =
      let e = evict_loop-Evicted r.size r.ticks r.order h.agree in
      record {
        agree = e.0;
        above = rw e.1 (drop-Above 0 (length r.order - r.size) r.order h.above);
        below = rw e.1 (drop-AllLe r.clock (length r.order - r.size) r.order h.below);
        bounded = rw e.1 (omega (arith, length-drop (length r.order - r.size) r.order));
      }

  -- The keys, and the ones let go.
  evict-view :
      (r : Recency K)
      → IsStamped r
      → (keys (evict dec r).0.order ≡ drop (length r.order - r.size) (keys r.order))
        × ((evict dec r).1 ≡ take (length r.order - r.size) (keys r.order))
        × ((evict dec r).0.size ≡ r.size)
  unfolding evict
  evict-view r h =
      let e = evict_loop-Evicted r.size r.ticks r.order h.agree in
      (rw e.1 (keys-drop (length r.order - r.size) r.order), e.2, refl)

  pub new-IsValid : (n : ℕ) → IsValid (new n)
  unfolding new HashMap.find BTreeMap.Above
  new-IsValid n = record {
    agree = record { same_tick = λ k. refl; nodup = tt };
    above = tt;
    below = tt;
    bounded = omega arith;
  }

  -- The order once the key's old tick is gone.
  unstamp-drop_key :
      (r : Recency K) (k : K)
      → IsValid r
      → unstamp (HashMap.find dec k r.ticks) r.order ≡ drop_key dec k r.order
  unstamp-drop_key r k h =
      rw (h.agree.same_tick k) (unstamp-tick_of dec k 0 r.order h.above h.agree.nodup)

  drop_key-Agree :
      (ticks : List (K × ℕ)) (o : List (ℕ × K)) (k : K)
      → Agree ticks o
      → Agree (HashMap.remove dec k ticks) (drop_key dec k o)
  drop_key-Agree ticks o k a = record {
    same_tick = λ j.
        rw (HashMap.find-remove dec j k ticks, a.same_tick j) (sym (tick_of-drop_key dec j k o));
    nodup = rw (keys-drop_key dec k o) (HashSet.remove-Nodup dec k (keys o) a.nodup);
  }

  pub remove-IsValid : (r : Recency K) (k : K) → IsValid r → IsValid (remove dec k r)
  unfolding remove
  remove-IsValid r k h = rw (unstamp-drop_key r k h) (record {
    agree = drop_key-Agree r.ticks r.order k h.agree;
    above = drop_key-Above dec k 0 r.order h.above;
    below = drop_key-AllLe dec k r.clock r.order h.below;
    bounded = omega (arith, length-drop_key-le dec k r.order);
  })

  pub remove-view :
      (r : Recency K) (k : K)
      → IsValid r
      → keys (remove dec k r).order ≡ HashSet.remove dec k (keys r.order)
  unfolding remove
  remove-view r k h = rw (unstamp-drop_key r k h) (keys-drop_key dec k r.order)

  pub clear-IsValid : (r : Recency K) → IsValid (clear dec r)
  unfolding clear HashMap.find BTreeMap.Above
  clear-IsValid r = record {
    agree = record { same_tick = λ k. refl; nodup = tt };
    above = tt;
    below = tt;
    bounded = omega arith;
  }

  pub resize-IsValid : (n : ℕ) (r : Recency K) → IsValid r → IsValid (resize dec n r).0
  unfolding resize
  resize-IsValid n r h =
      evict-IsValid (record r { size = n })
        (record { agree = h.agree; above = h.above; below = h.below })

  -- In a well-formed window, a new size lets go as many of the oldest keys as exceed it, and leaves
  -- the others in order.
  pub resize-view :
      (n : ℕ) (r : Recency K)
      → IsValid r
      → (keys (resize dec n r).0.order ≡ drop (length r.order - n) (keys r.order))
        × ((resize dec n r).1 ≡ take (length r.order - n) (keys r.order))
        × ((resize dec n r).0.size ≡ n)
  unfolding resize
  resize-view n r h =
      evict-view (record r { size = n })
        (record { agree = h.agree; above = h.above; below = h.below })

  -- A key that is admitted is stamped with a tick above all others.
  module _ (r : Recency K) (k : K) (h : IsValid r) (in_time : r.clock + 1 < u64_mod) where
    abbrev now : ℕ
    now = (r.clock + 1) % u64_mod

    abbrev rest : List (ℕ × K)
    rest = drop_key dec k r.order

    abbrev stamped : Recency K
    stamped = record r {
      clock = now;
      ticks = HashMap.insert dec k now r.ticks;
      order = BTreeMap.insert now k (unstamp (HashMap.find dec k r.ticks) r.order);
    }

    now-gt : r.clock < now
    now-gt = omega arith

    rest-below : AllLe r.clock rest
    rest-below = drop_key-AllLe dec k r.clock r.order h.below

    stamped-order : stamped.order ≡ rest ++ (now, k) ∷ []
    stamped-order = rw (unstamp-drop_key r k h) (insert_last k r.clock now rest rest-below now-gt)

    rest-absent : HashSet.contains dec k (keys rest) ≡ false
    rest-absent =
        rw (keys-drop_key dec k r.order)
          (ground (arith, HashSet.contains-remove dec k k (keys r.order)))

    stamped-keys : keys stamped.order ≡ HashSet.remove dec k (keys r.order) ++ k ∷ []
    stamped-keys = rw (stamped-order, keys-append, keys-drop_key dec k r.order) refl

    stamped-Agree : Agree stamped.ticks (rest ++ (now, k) ∷ [])
    stamped-Agree = record {
      same_tick = λ j.
          rw
            (
              HashMap.find-insert dec j k now r.ticks,
              h.agree.same_tick j,
              tick_of-snoc dec j k now rest (tick_of_absent dec k rest rest-absent),
              tick_of-drop_key dec j k r.order,
            )
            (ground arith);
      nodup = rw (keys-append rest ((now, k) ∷ [])) (
          HashSet.snoc-Nodup dec k (keys rest) rest-absent
            (drop_key-Agree r.ticks r.order k h.agree).nodup);
    }

    stamped-IsStamped : IsStamped stamped
    stamped-IsStamped = record {
      agree = rw stamped-order stamped-Agree;
      above = rw stamped-order (
          snoc-Above k 0 r.clock now rest rest-below (drop_key-Above dec k 0 r.order h.above) now-gt
            (omega arith));
      below = rw stamped-order (snoc-AllLe k r.clock now rest rest-below now-gt);
    }

    -- The keys with this one at the end.
    abbrev touched : List K
    touched = HashSet.remove dec k (keys r.order) ++ k ∷ []

    -- A well-formed window whose clock has a tick left stays well formed when a key is admitted: the
    -- map of ticks agrees with the order, the ticks ascend, none is above the clock, no key stands
    -- twice, and no more keys are left than the size.
    pub admit-IsValid : IsValid (admit dec k r).0
    unfolding admit
    admit-IsValid = evict-IsValid stamped stamped-IsStamped

    -- In a well-formed window whose clock has a tick left, an admission moves the key to the end of
    -- the keys in order of last use, and lets go as many of the oldest as exceed the size.
    pub admit-view :
        (keys (admit dec k r).0.order ≡ drop (length touched - r.size) touched)
        × ((admit dec k r).1 ≡ take (length touched - r.size) touched)
        × ((admit dec k r).0.size ≡ r.size)
    unfolding admit
    admit-view =
        let v = evict-view stamped stamped-IsStamped in
        let e : length stamped.order ≡ length touched =
          sym (length-keys stamped.order) ∙ ap length stamped-keys in
        rw (← stamped-keys, length-keys) v
