-- ===== src/Kms/Cipher/Opening.antt =====
-- What the cipher seals opens, and what a key wraps unwraps.
use ascetic_ddd_rust.Prelude.{
  ℕ, zero, suc, [], ◌∷◌, ◌++◌, false, Option, none, some, ◌≡◌, refl, ap, subst, arith, ltb, length,
  take, drop, length-append,
}
use ascetic_ddd_rust.Prelude.Result.{ok, bind-eq_ok}
use ascetic_ddd_rust.Kms.Key.{Bytes, Key, WrappedKey, Error, malformed, entropy}
use ascetic_ddd_rust.Kms.Cipher
use ascetic_ddd_rust.Kms.Cipher.{Platform, IsLawful, Cipher, ok_or}

pub ok_or-eq_ok {ℓ} :
    {A : Type ℓ} (e : Error) (o : Option A) (a : A) → ok_or e o ≡ ok a → o ≡ some a
unfolding ok_or
ok_or-eq_ok e none a h = absurd (cc)
ok_or-eq_ok e (some b) a h = cc

take-chunk : (n : ℕ) (xs ys : Bytes) → length xs ≡ n → take n (xs ++ ys) ≡ xs
take-chunk zero [] ys h = refl
take-chunk zero (x ∷ xs) ys h = absurd (omega arith)
take-chunk (suc n) [] ys h = absurd (omega arith)
take-chunk (suc n) (x ∷ xs) ys h = ap (λ rest. x ∷ rest) (take-chunk n xs ys (omega arith))

drop-chunk : (n : ℕ) (xs ys : Bytes) → length xs ≡ n → drop n (xs ++ ys) ≡ ys
drop-chunk zero [] ys h = refl
drop-chunk zero (x ∷ xs) ys h = absurd (omega arith)
drop-chunk (suc n) [] ys h = absurd (omega arith)
drop-chunk (suc n) (x ∷ xs) ys h = drop-chunk n xs ys (omega arith)

module _ {ℓ} {E : Type ℓ} (p : Platform E) (lawful : IsLawful p) where
  decrypt-sealed :
      (c : Cipher) (nonce sealed message : Bytes)
      → length nonce ≡ 12
      → p.encrypt c.key nonce c.aad message ≡ some sealed
      → Cipher.decrypt p c (nonce ++ sealed) ≡ ok message
  unfolding Cipher.decrypt ok_or
  decrypt-sealed c nonce sealed message h k =
      let long : ltb (length (nonce ++ sealed)) 12 ≡ false =
        ground (arith, length-append nonce sealed) in
      let tagged : ltb (length sealed) 16 ≡ false =
        ground (arith, lawful.length-encrypt c.key nonce c.aad message sealed k) in
      rw long (
        rw (drop-chunk 12 nonce sealed h) (
          rw tagged (
            rw (take-chunk 12 nonce sealed h)
              (rw (lawful.decrypt-encrypt c.key nonce c.aad message sealed k) refl))))

  decrypt-encrypt_lem :
      (c : Cipher) (message sealed : Bytes) (e e' : E)
      → Cipher.encrypt p c message e ≡ ok (sealed, e')
      → Cipher.decrypt p c sealed ≡ ok message
  unfolding Cipher.encrypt Cipher.encrypt_with
  decrypt-encrypt_lem c message sealed e e' h =
      let (drawn, h1, h2) = bind-eq_ok (ok_or entropy (p.fill 12 e)) _ _ h in
      let (out, h3, h4) = bind-eq_ok (Cipher.encrypt_with p c drawn.0 message) _ _ h2 in
      let (tail, h5, h6) =
        bind-eq_ok (ok_or malformed (p.encrypt c.key drawn.0 c.aad message)) _ _ h3 in
      let same : drawn.0 ++ tail ≡ sealed = cc in
      subst (λ x. Cipher.decrypt p c x ≡ ok message) same
        (decrypt-sealed c drawn.0 tail message
          (lawful.length-fill 12 e drawn.1 drawn.0 (ok_or-eq_ok _ _ _ h1)) (ok_or-eq_ok _ _ _ h5))

  -- A key that was wrapped names the version that wrapped it and unwraps.
  pub unwrap-wrap :
      (version : ℕ) (c : Cipher) (key : Key) (w : WrappedKey) (e e' : E)
      → Cipher.wrap p version c key e ≡ ok (w, e')
      → (w.key_version ≡ version) × (Cipher.unwrap p version c w ≡ ok key)
  unfolding Cipher.wrap Cipher.unwrap
  unwrap-wrap version c key w e e' h =
      let (sealed, h1, h2) = bind-eq_ok (Cipher.encrypt p c key.bytes e) _ _ h in
      let named : w.key_version ≡ version = cc in
      let inside : w.sealed ≡ sealed.0 = cc in
      let opens = decrypt-encrypt_lem c key.bytes sealed.0 e sealed.1 h1 in
      (named, rw named (rw inside (rw opens (ground arith))))
