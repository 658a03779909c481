-- ===== src/Kms/Cache.antt =====
-- The cache of unwrapped keys in front of a key management (crates/kms/src/cache.rs). The lock makes
-- each access to the entries one step. Time is counted in whole ticks; an access reads it once. What
-- the service behind the cache answers to a call is an argument.
pub mod Entries
pub mod Truth
pub mod Room
use ascetic_ddd_rust.Prelude.Bytes.{bytes_eq}
use ascetic_ddd_rust.Prelude.{
  ℕ, zero, suc, ◌-◌, List, [], ◌∷◌, Bool, true, false, not, ◌&&◌, ◌||◌, Option, none, some, ltb,
  leb, ◌==◌, if◌then◌else◌, length, retain,
}
use ascetic_ddd_rust.Prelude.Result.{Result, ok, err}
use ascetic_ddd_rust.Kms.Key.{Bytes, Key, Error}

-- A key with the tenant and the wrapped bytes that find it, and when it was unwrapped.
pub record Entry : Type 0 where
  pub tenant_id : Bytes
  pub wrapped : Bytes
  pub key : Key
  pub since : ℕ

pub record Cached : Type 0 where
  pub capacity : ℕ
  pub ttl : ℕ
  pub entries : List Entry

-- Five minutes, in milliseconds.
unfoldable pub new : Cached
new = record { capacity = 1000; ttl = 300000; entries = [] }

unfoldable pub with_capacity : ℕ → Cached → Cached
with_capacity capacity c = record c { capacity = capacity }

unfoldable pub with_ttl : ℕ → Cached → Cached
with_ttl ttl c = record c { ttl = ttl }

unfoldable pub len : Cached → ℕ
len c = length c.entries

unfoldable pub is_of : Bytes → Bytes → Entry → Bool
is_of tenant_id wrapped entry = bytes_eq entry.tenant_id tenant_id && bytes_eq entry.wrapped wrapped

unfoldable pub is_fresh : ℕ → ℕ → Entry → Bool
is_fresh now ttl entry = ltb (now - entry.since) ttl

unfoldable pub find : Bytes → Bytes → List Entry → Option Entry
find tenant_id wrapped [] = none
find tenant_id wrapped (entry ∷ entries) =
    if is_of tenant_id wrapped entry then some entry else find tenant_id wrapped entries

unfoldable pub remove : Bytes → Bytes → List Entry → List Entry
remove tenant_id wrapped entries = retain (λ entry. not (is_of tenant_id wrapped entry)) entries

-- `then`.
unfoldable pub key_if_fresh : ℕ → ℕ → Option Entry → Option Key
key_if_fresh now ttl none = none
key_if_fresh now ttl (some entry) = if is_fresh now ttl entry then some entry.key else none

unfoldable pub get : ℕ → Bytes → Bytes → Cached → Option Key
get now tenant_id wrapped c = key_if_fresh now c.ttl (find tenant_id wrapped c.entries)

-- `min_by_key`: the first of the oldest.
unfoldable pub older : Entry → Option Entry → Entry
older entry none = entry
older entry (some other) = if leb entry.since other.since then entry else other

unfoldable pub oldest : List Entry → Option Entry
oldest [] = none
oldest (entry ∷ entries) = some (older entry (oldest entries))

unfoldable pub evicted : Option Entry → List Entry → List Entry
evicted none entries = entries
evicted (some entry) entries = remove entry.tenant_id entry.wrapped entries

-- The loop that makes room, on fuel: each round removes an entry.
unfoldable pub make_room : ℕ → ℕ → List Entry → List Entry
make_room zero capacity entries = entries
make_room (suc fuel) capacity entries =
    let rest = make_room fuel capacity (evicted (oldest entries) entries) in
    if ltb (length entries) capacity then entries else rest

unfoldable pub put : ℕ → Bytes → Bytes → Key → Cached → Cached
put now tenant_id wrapped key c =
    let fresh = retain (is_fresh now c.ttl) c.entries in
    let room = make_room (length fresh) c.capacity fresh in
    let entry : Entry = record {
      tenant_id = tenant_id;
      wrapped = wrapped;
      key = key;
      since = now;
    } in
    if c.capacity == 0 || c.ttl == 0
    then c
    else record c { entries = entry ∷ remove tenant_id wrapped room }

unfoldable pub forget : Bytes → Cached → Cached
forget tenant_id c = record c {
  entries = retain (λ entry. not (bytes_eq entry.tenant_id tenant_id)) c.entries;
}

-- Asked at one time, the service answers at a later one.
unfoldable pub keep_answer :
    ℕ → Bytes → Bytes → Result Error Key → Cached → Cached × Result Error Key
keep_answer now tenant_id wrapped (ok key) c = (put now tenant_id wrapped key c, ok key)
keep_answer now tenant_id wrapped (err why) c = (c, err why)

unfoldable pub cached_or :
    ℕ → Bytes → Bytes → Result Error Key → Option Key → Cached → Cached × Result Error Key
cached_or now tenant_id wrapped answer (some key) c = (c, ok key)
cached_or now tenant_id wrapped answer none c = keep_answer now tenant_id wrapped answer c

unfoldable pub decrypt_dek :
    ℕ → ℕ → Bytes → Bytes → Result Error Key → Cached → Cached × Result Error Key
decrypt_dek asked answered tenant_id wrapped answer c =
    cached_or answered tenant_id wrapped answer (get asked tenant_id wrapped c) c

-- A retirement or a deletion through the cache: what the service answers, and what is forgotten.
unfoldable pub forget_if_ok :
    Bytes → Result Error (Unit {0}) → Cached → Cached × Result Error (Unit {0})
forget_if_ok tenant_id (ok done) c = (forget tenant_id c, ok done)
forget_if_ok tenant_id (err why) c = (c, err why)

unfoldable pub retire_kek_versions_before :
    Bytes → Result Error (Unit {0}) → Cached → Cached × Result Error (Unit {0})
retire_kek_versions_before tenant_id answer c = forget_if_ok tenant_id answer c

unfoldable pub delete_kek :
    Bytes → Result Error (Unit {0}) → Cached → Cached × Result Error (Unit {0})
delete_kek tenant_id answer c = forget_if_ok tenant_id answer c
