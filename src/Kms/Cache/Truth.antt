-- ===== src/Kms/Cache/Truth.antt =====
-- The cache answers only what the service answered, while it lives and is not forgotten, and holds
-- no more keys than its capacity.
use ascetic_ddd_rust.Prelude.Bytes.{bytes_eq}
use ascetic_ddd_rust.Prelude.{
  ℕ, ◌-◌, ◌<◌, List, [], ◌∷◌, Bool, true, false, ◌||◌, Option, none, some, ◌≡◌, ◌⊎◌, refl, ap,
  subst, arith, ◌==◌, if◌then◌else◌, inl, inr,
}
use ascetic_ddd_rust.Prelude.Result.{Result, ok, err}
use ascetic_ddd_rust.Kms.Key.{Bytes, Key, Error}
use ascetic_ddd_rust.Kms.Cache.{
  Entry, Cached, is_fresh, find, remove, get, put, forget, keep_answer, cached_or, decrypt_dek,
  forget_if_ok, retire_kek_versions_before, delete_kek,
}
use ascetic_ddd_rust.Kms.Cache.Entries.{
  AllEntries, AllEntries-retain, AllEntries-make_room, AllEntries-map, find-AllEntries,
  key_if_fresh-some,
}

-- What the service said, the last first: the keys that it unwrapped, and the tenants of which a key
-- was retired or deleted.
pub data Event : Type 0 where
  answered : Bytes → Bytes → Key → ℕ → Event
  forgot : Bytes → Event

-- A key that the service unwrapped, of whose tenant no key was retired or deleted since.
abbrev pub Told : Bytes → Bytes → Key → ℕ → List Event → Type 0
Told tenant_id wrapped key since [] = ⊥
Told tenant_id wrapped key since (answered t w k time ∷ log) =
    ((t ≡ tenant_id) × (w ≡ wrapped) × (k ≡ key) × (time ≡ since))
    ⊎ Told tenant_id wrapped key since log
Told tenant_id wrapped key since (forgot t ∷ log) =
    (bytes_eq tenant_id t ≡ false) × Told tenant_id wrapped key since log

abbrev Was : List Event → Entry → Type 0
Was log entry = Told entry.tenant_id entry.wrapped entry.key entry.since log

-- Every entry was told.
abbrev pub IsTold : List Event → Cached → Type 0
IsTold log c = AllEntries (Was log) c.entries

if-IsTold :
    (log : List Event) (b : Bool) (c c' : Cached)
    → IsTold log c
    → IsTold log c'
    → IsTold log (if b then c else c')
if-IsTold log true c c' h k = h
if-IsTold log false c c' h k = k

put-IsTold :
    (now : ℕ) (tenant_id wrapped : Bytes) (key : Key) (c : Cached) (log : List Event)
    → IsTold log c
    → IsTold (answered tenant_id wrapped key now ∷ log) (put now tenant_id wrapped key c)
unfolding put remove
put-IsTold now tenant_id wrapped key c log h =
    let kept =
      AllEntries-map _ (Was (answered tenant_id wrapped key now ∷ log)) c.entries (λ e k. inr k)
        h in
    let fresh = AllEntries-retain _ _ (is_fresh now c.ttl) c.entries (λ e fresh k. k) kept in
    if-IsTold (answered tenant_id wrapped key now ∷ log) (c.capacity == 0 || c.ttl == 0) c _ kept (
      inl (refl, refl, refl, refl),
      AllEntries-retain _ _ _ _ (λ e other k. k) (AllEntries-make_room _ _ c.capacity _ fresh),
    )

-- A key that is got was told, within the time to live.
get-Told :
    (now : ℕ) (tenant_id wrapped : Bytes) (c : Cached) (key : Key) (log : List Event)
    → IsTold log c
    → get now tenant_id wrapped c ≡ some key
    → (since : ℕ) × Told tenant_id wrapped key since log × (now - since < c.ttl)
unfolding get
get-Told now tenant_id wrapped c key log h found =
    let (entry, e, k, fresh) =
      key_if_fresh-some now c.ttl (find tenant_id wrapped c.entries) key found in
    let (told, t, w) = find-AllEntries (Was log) tenant_id wrapped entry c.entries h e in
    (
      entry.since,
      subst (λ x. Told x wrapped key entry.since log) t
          (subst (λ x. Told entry.tenant_id x key entry.since log) w
            (subst (λ x. Told entry.tenant_id entry.wrapped x entry.since log) k told)),
      fresh,
    )

forget-IsTold :
    (tenant_id : Bytes) (c : Cached) (log : List Event)
    → IsTold log c
    → IsTold (forgot tenant_id ∷ log) (forget tenant_id c)
unfolding forget
forget-IsTold tenant_id c log h =
    AllEntries-retain _ _ _ c.entries (λ entry kept k. (ground arith, k)) h

-- The calls of a cache, with the answers of the service to those that it is asked.
pub data Call : Type 0 where
  decrypts : ℕ → ℕ → Bytes → Bytes → Result Error Key → Call
  retires : Bytes → Result Error (Unit {0}) → Call
  deletes : Bytes → Result Error (Unit {0}) → Call

-- What the service says in a call, if it is asked.
unfoldable pub said : ℕ → Bytes → Bytes → Result Error Key → Option Key → List Event → List Event
said time tenant_id wrapped answer (some key) log = log
said time tenant_id wrapped (ok key) none log = answered tenant_id wrapped key time ∷ log
said time tenant_id wrapped (err why) none log = log

unfoldable pub dropped : Bytes → Result Error (Unit {0}) → List Event → List Event
dropped tenant_id (ok done) log = forgot tenant_id ∷ log
dropped tenant_id (err why) log = log

unfoldable pub step : Call → Cached × List Event → Cached × List Event
step (decrypts asked time tenant_id wrapped answer) (c, log) = (
  (decrypt_dek asked time tenant_id wrapped answer c).0,
  said time tenant_id wrapped answer (get asked tenant_id wrapped c) log,
)
step (retires tenant_id answer) (c, log) =
    ((retire_kek_versions_before tenant_id answer c).0, dropped tenant_id answer log)
step (deletes tenant_id answer) (c, log) =
    ((delete_kek tenant_id answer c).0, dropped tenant_id answer log)

unfoldable pub run : List Call → Cached × List Event → Cached × List Event
run [] at = at
run (call ∷ calls) at = run calls (step call at)

cached_or-IsTold :
    (time : ℕ) (tenant_id wrapped : Bytes) (answer : Result Error Key) (found : Option Key)
    (c : Cached) (log : List Event)
    → IsTold log c
    → IsTold
        (said time tenant_id wrapped answer found log)
        (cached_or time tenant_id wrapped answer found c).0
unfolding cached_or keep_answer said
cached_or-IsTold time tenant_id wrapped answer (some key) c log h = h
cached_or-IsTold time tenant_id wrapped (ok key) none c log h =
    put-IsTold time tenant_id wrapped key c log h
cached_or-IsTold time tenant_id wrapped (err why) none c log h = h

dropped-IsTold :
    (tenant_id : Bytes) (answer : Result Error (Unit {0})) (c : Cached) (log : List Event)
    → IsTold log c
    → IsTold (dropped tenant_id answer log) (forget_if_ok tenant_id answer c).0
unfolding forget_if_ok dropped
dropped-IsTold tenant_id (ok done) c log h = forget-IsTold tenant_id c log h
dropped-IsTold tenant_id (err why) c log h = h

run-IsTold :
    (calls : List Call) (c : Cached) (log : List Event)
    → IsTold log c
    → IsTold (run calls (c, log)).1 (run calls (c, log)).0
unfolding run step decrypt_dek retire_kek_versions_before delete_kek
run-IsTold [] c log h = h
run-IsTold (decrypts asked time tenant_id wrapped answer ∷ calls) c log h =
    run-IsTold calls _ _
      (cached_or-IsTold time tenant_id wrapped answer (get asked tenant_id wrapped c) c log h)
run-IsTold (retires tenant_id answer ∷ calls) c log h =
    run-IsTold calls _ _ (dropped-IsTold tenant_id answer c log h)
run-IsTold (deletes tenant_id answer ∷ calls) c log h =
    run-IsTold calls _ _ (dropped-IsTold tenant_id answer c log h)

pub cached_or-answer :
    (time : ℕ) (tenant_id wrapped : Bytes) (answer : Result Error Key) (found : Option Key)
    (c : Cached) (key : Key)
    → (cached_or time tenant_id wrapped answer found c).1 ≡ ok key
    → (answer ≡ ok key) ⊎ (found ≡ some key)
unfolding cached_or keep_answer
cached_or-answer time tenant_id wrapped answer (some k) c key h =
    let e : k ≡ key = cc in inr (ap (λ x. some x) e)
cached_or-answer time tenant_id wrapped (ok k) none c key h = inl h
cached_or-answer time tenant_id wrapped (err why) none c key h = absurd (cc)

-- After any calls of an empty cache, a key that it answers is the one that the service answers now, or
-- that the service answered before for the same tenant and wrapped bytes, less than the time to live
-- ago, and no retirement or deletion of a key of the tenant went through the cache since.
pub decrypt_dek-Told :
    (calls : List Call) (capacity ttl asked time : ℕ) (tenant_id wrapped : Bytes)
    (answer : Result Error Key) (key : Key) (c : Cached) (log : List Event)
    → run calls (record { capacity = capacity; ttl = ttl; entries = [] }, []) ≡ (c, log)
    → (decrypt_dek asked time tenant_id wrapped answer c).1 ≡ ok key
    → (answer ≡ ok key)
      ⊎ ((since : ℕ) × Told tenant_id wrapped key since log × (asked - since < c.ttl))
unfolding decrypt_dek
decrypt_dek-Told calls capacity ttl asked time tenant_id wrapped answer key c log ran h =
    let told : IsTold log c = subst (λ at. IsTold at.1 at.0) ran (run-IsTold calls _ [] tt) in
    elim (cached_or-answer time tenant_id wrapped answer (get asked tenant_id wrapped c) c key h) [
      | inl now ↦ inl now
      | inr found ↦ inr (get-Told asked tenant_id wrapped c key log told found)
    ]
