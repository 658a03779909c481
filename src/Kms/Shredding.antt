-- ===== src/Kms/Shredding.antt =====
-- The cache in front of the service: the deletion of a tenant's key through both.
use ascetic_ddd_rust.Prelude.Bytes.{bytes_eq}
use ascetic_ddd_rust.Prelude.{
  ℕ, List, [], ◌∷◌, not, none, ◌≡◌, ◌≢◌, refl, retain, Bool-cases, inl, inr,
}
use ascetic_ddd_rust.Prelude.Result.{ok}
use ascetic_ddd_rust.Kms.Key.{Bytes, Key}
use ascetic_ddd_rust.Kms.Cipher.{Platform, IsLawful}
use ascetic_ddd_rust.Kms.Service
use ascetic_ddd_rust.Kms.Service.{PgKeyManagementService, Row}
use ascetic_ddd_rust.Kms.Service.RoundTrip.{decrypt_dek-deleted}
use ascetic_ddd_rust.Kms.Cache
use ascetic_ddd_rust.Kms.Cache.{Entry, Cached, is_of, find, key_if_fresh, get, forget, forget_if_ok}
use ascetic_ddd_rust.Kms.Cache.Truth.{cached_or-answer}

find-forgotten :
    (tenant_id wrapped : Bytes) (entries : List Entry)
    → find tenant_id wrapped (retain (λ entry. not (bytes_eq entry.tenant_id tenant_id)) entries)
      ≡ none
unfolding find is_of
find-forgotten tenant_id wrapped [] = refl
find-forgotten tenant_id wrapped (entry ∷ entries) =
    let rest = find-forgotten tenant_id wrapped entries in
    elim (Bool-cases (bytes_eq entry.tenant_id tenant_id)) [
      | inl gone ↦ rw gone rest
      | inr kept ↦ rw kept (rw kept rest)
    ]

get-forget :
    (now : ℕ) (tenant_id wrapped : Bytes) (c : Cached)
    → get now tenant_id wrapped (forget tenant_id c) ≡ none
unfolding get forget key_if_fresh
get-forget now tenant_id wrapped c = rw (find-forgotten tenant_id wrapped c.entries) refl

module _ {ℓ} {E : Type ℓ} (p : Platform E) (lawful : IsLawful p) (s : PgKeyManagementService) where
  -- When the deletion of a tenant's key went through the cache and the service, the cache in front of
  -- the service unwraps nothing for the tenant, whatever it held before.
  pub decrypt_dek-shredded :
      (asked time : ℕ) (tenant_id wrapped : Bytes) (rows : List Row) (c : Cached) (key : Key)
      → (Cache.decrypt_dek asked time tenant_id wrapped
          (Service.decrypt_dek p s tenant_id wrapped (Service.delete_kek tenant_id rows))
          (Cache.delete_kek tenant_id (ok tt) c).0).1
        ≢ ok key
  unfolding Cache.decrypt_dek Cache.delete_kek forget_if_ok
  decrypt_dek-shredded asked time tenant_id wrapped rows c key h =
      elim (cached_or-answer time tenant_id wrapped
        (Service.decrypt_dek p s tenant_id wrapped (Service.delete_kek tenant_id rows))
        (get asked tenant_id wrapped (forget tenant_id c)) (forget tenant_id c) key h) [
          | inl answered ↦ decrypt_dek-deleted p lawful s tenant_id rows wrapped key answered
          | inr found ↦ let gone = get-forget asked tenant_id wrapped c in absurd (cc)
        ]
