-- ===== src/Kms/Cache/Room.antt =====
-- The cache holds no more keys than its capacity.
use ascetic_ddd_rust.Prelude.Bytes.{bytes_eq, bytes_eq_refl}
use ascetic_ddd_rust.Prelude.{
  ℕ, zero, suc, ◌≤◌, ◌<◌, List, [], ◌∷◌, Bool, true, false, not, ◌&&◌, ◌||◌, Option, none, some,
  ◌≡◌, ◌⊎◌, refl, sym, subst, arith, ltb, leb, ltb→lt, ◌==◌, if◌then◌else◌, length, retain,
  length-retain-le, Bool-cases, inl, inr,
}
use ascetic_ddd_rust.Prelude.Result.{Result, ok, err}
use ascetic_ddd_rust.Kms.Key.{Bytes, Key, Error}
use ascetic_ddd_rust.Kms.Cache.{
  Entry, Cached, len, is_of, is_fresh, remove, get, older, oldest, evicted, make_room, put, forget,
  keep_answer, cached_or, decrypt_dek, forget_if_ok, retire_kek_versions_before, delete_kek,
}
use ascetic_ddd_rust.Kms.Cache.Truth.{Call, Event, decrypts, retires, deletes, step, run}

abbrev IsAmong : Entry → List Entry → Type 0
IsAmong x [] = ⊥
IsAmong x (entry ∷ entries) = (entry ≡ x) ⊎ IsAmong x entries

older-IsAmong :
    (entry x : Entry) (o : Option Entry) (entries : List Entry)
    → ((y : Entry) → o ≡ some y → IsAmong y entries)
    → older entry o ≡ x
    → IsAmong x (entry ∷ entries)
unfolding older
older-IsAmong entry x none entries k h = inl h
older-IsAmong entry x (some other) entries k h = elim (Bool-cases (leb entry.since other.since)) [
  | inl here ↦ inl (rw here at h)
  | inr there ↦ inr (subst (λ y. IsAmong y entries) (rw there at h) (k other refl))
]

oldest-IsAmong : (x : Entry) (entries : List Entry) → oldest entries ≡ some x → IsAmong x entries
unfolding oldest
oldest-IsAmong x [] h = absurd (cc)
oldest-IsAmong x (entry ∷ entries) h =
    older-IsAmong entry x (oldest entries) entries (λ y k. oldest-IsAmong y entries k) (cc)

is_of_self : (x entry : Entry) → entry ≡ x → is_of x.tenant_id x.wrapped entry ≡ true
unfolding is_of
is_of_self x entry h =
    subst (λ e. (bytes_eq e.tenant_id x.tenant_id && bytes_eq e.wrapped x.wrapped) ≡ true) (sym h)
      (rw (bytes_eq_refl x.tenant_id) (rw (bytes_eq_refl x.wrapped) refl))

-- A round of the loop removes an entry.
length-remove :
    (x : Entry) (entries : List Entry)
    → IsAmong x entries
    → length (remove x.tenant_id x.wrapped entries) < length entries
unfolding remove
length-remove x [] h = absurd h
length-remove x (entry ∷ entries) (inl here) =
    rw (is_of_self x entry here)
      (omega (arith, length-retain-le (λ e. not (is_of x.tenant_id x.wrapped e)) entries))
length-remove x (entry ∷ entries) (inr later) =
    let rest = length-remove x entries later in
    elim (Bool-cases (is_of x.tenant_id x.wrapped entry)) [
      | inl gone ↦ rw gone (omega arith)
      | inr kept ↦ rw kept (omega arith)
    ]

length-evicted :
    (entry : Entry) (entries : List Entry)
    → length (evicted (oldest (entry ∷ entries)) (entry ∷ entries)) ≤ length entries
unfolding evicted oldest
length-evicted entry entries =
    let x = older entry (oldest entries) in
    omega (
      arith,
      length-remove x (entry ∷ entries)
          (oldest-IsAmong x (entry ∷ entries) (unfold oldest in refl)),
    )

length-make_room :
    (fuel capacity : ℕ) (entries : List Entry)
    → 0 < capacity
    → length entries ≤ fuel
    → length (make_room fuel capacity entries) < capacity
unfolding make_room
length-make_room zero capacity [] h k = h
length-make_room zero capacity (entry ∷ entries) h k = absurd (omega arith)
length-make_room (suc fuel) capacity [] h k =
    let fits : ltb 0 capacity ≡ true = ground arith in rw fits h
length-make_room (suc fuel) capacity (entry ∷ entries) h k =
    let less = length-evicted entry entries in
    let rest = length-make_room fuel capacity _ h (omega arith) in
    elim (Bool-cases (ltb (suc (length entries)) capacity)) [
      | inl fits ↦ rw fits (ltb→lt (suc (length entries)) capacity fits)
      | inr full ↦ rw full rest
    ]

abbrev IsWithin : ℕ → Cached → Type 0
IsWithin capacity c = (c.capacity ≡ capacity) × (length c.entries ≤ capacity)

if-IsWithin :
    (capacity : ℕ) (b : Bool) (c c' : Cached)
    → IsWithin capacity c
    → (b ≡ false → IsWithin capacity c')
    → IsWithin capacity (if b then c else c')
if-IsWithin capacity true c c' h k = h
if-IsWithin capacity false c c' h k = k refl

put-IsWithin :
    (capacity now : ℕ) (tenant_id wrapped : Bytes) (key : Key) (c : Cached)
    → IsWithin capacity c
    → IsWithin capacity (put now tenant_id wrapped key c)
unfolding put remove
put-IsWithin capacity now tenant_id wrapped key c h =
    let fresh = retain (is_fresh now c.ttl) c.entries in
    let room = make_room (length fresh) c.capacity fresh in
    if-IsWithin capacity (c.capacity == 0 || c.ttl == 0) c _ h (λ can.
      let some_room : 0 < c.capacity = ground arith in
      let less = length-make_room (length fresh) c.capacity fresh some_room (omega arith) in
      let left = length-retain-le (λ e. not (is_of tenant_id wrapped e)) room in (h.0, omega arith))

forget-IsWithin :
    (capacity : ℕ) (tenant_id : Bytes) (c : Cached)
    → IsWithin capacity c
    → IsWithin capacity (forget tenant_id c)
unfolding forget
forget-IsWithin capacity tenant_id c h =
    (h.0, omega (arith, length-retain-le (λ e. not (bytes_eq e.tenant_id tenant_id)) c.entries))

cached_or-IsWithin :
    (capacity time : ℕ) (tenant_id wrapped : Bytes) (answer : Result Error Key) (found : Option Key)
    (c : Cached)
    → IsWithin capacity c
    → IsWithin capacity (cached_or time tenant_id wrapped answer found c).0
unfolding cached_or keep_answer
cached_or-IsWithin capacity time tenant_id wrapped answer (some key) c h = h
cached_or-IsWithin capacity time tenant_id wrapped (ok key) none c h =
    put-IsWithin capacity time tenant_id wrapped key c h
cached_or-IsWithin capacity time tenant_id wrapped (err why) none c h = h

forget_if_ok-IsWithin :
    (capacity : ℕ) (tenant_id : Bytes) (answer : Result Error (Unit {0})) (c : Cached)
    → IsWithin capacity c
    → IsWithin capacity (forget_if_ok tenant_id answer c).0
unfolding forget_if_ok
forget_if_ok-IsWithin capacity tenant_id (ok done) c h = forget-IsWithin capacity tenant_id c h
forget_if_ok-IsWithin capacity tenant_id (err why) c h = h

run-IsWithin :
    (capacity : ℕ) (calls : List Call) (c : Cached) (log : List Event)
    → IsWithin capacity c
    → IsWithin capacity (run calls (c, log)).0
unfolding run step decrypt_dek retire_kek_versions_before delete_kek
run-IsWithin capacity [] c log h = h
run-IsWithin capacity (decrypts asked time tenant_id wrapped answer ∷ calls) c log h =
    run-IsWithin capacity calls _ _ (
      cached_or-IsWithin capacity time tenant_id wrapped answer (get asked tenant_id wrapped c) c h)
run-IsWithin capacity (retires tenant_id answer ∷ calls) c log h =
    run-IsWithin capacity calls _ _ (forget_if_ok-IsWithin capacity tenant_id answer c h)
run-IsWithin capacity (deletes tenant_id answer ∷ calls) c log h =
    run-IsWithin capacity calls _ _ (forget_if_ok-IsWithin capacity tenant_id answer c h)

-- After any calls of an empty cache, it holds no more keys than its capacity.
pub len-run :
    (capacity ttl : ℕ) (calls : List Call)
    → len (run calls (record { capacity = capacity; ttl = ttl; entries = [] }, [])).0 ≤ capacity
unfolding len
len-run capacity ttl calls = (run-IsWithin capacity calls _ [] (refl, omega arith)).1
