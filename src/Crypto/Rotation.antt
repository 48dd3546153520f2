-- ===== src/Crypto/Rotation.antt =====
-- What one encryptor wrote, another reads as long as it has the key, and nothing is read without one.
use jira_bot.Base.{
  ℕ, ◌≡◌, refl, sym, ap, ◌∙◌, ltb, if◌then◌else◌, false, List, [], ◌∷◌, ◌++◌, Option, none, some,
  Text, length, take, drop, arith, All, length-append, take-append, drop-append,
}
use jira_bot.Crypto.{
  Aead, Primitives, ok, or_fail, or_else, ◌>>=◌, Encryptor, encrypt, try_secondary, try_all_keys,
  try_versioned, decrypt_raw, decrypt, blob_version_v1, CryptoError,
}

-- What `encoding/base64` and `crypto/rand` promise, for encryptors of a nonce size.
pub record IsLawful (p : Primitives) : Type 0 where
  pub decode_encode : (s : Text) → p.base64_decode (p.base64_encode s) ≡ some s
  pub decode_empty : p.base64_decode [] ≡ some []
  pub random_size : (n : ℕ) (nonce : Text) → p.random n ≡ some nonce → length nonce ≡ n

-- A key opens what it sealed; a key refuses what another sealed.
abbrev pub OpensOwn : Aead → Type 0
OpensOwn k = (nonce s : Text) → k.open_sealed nonce (k.seal nonce s) ≡ some s

abbrev pub Rejects : Aead → Aead → Type 0
Rejects other k = (nonce s : Text) → k.open_sealed nonce (other.seal nonce s) ≡ none

abbrev pub keys_of : Encryptor → List Aead
keys_of e = e.primary ∷ e.secondary

pub try_keys_step :
    (e : Encryptor) (blob : Text)
    → try_all_keys e blob ≡ (
        if ltb (length blob) e.nonce_size
        then none
        else try_secondary (keys_of e) (take e.nonce_size blob) (drop e.nonce_size blob))
unfolding try_all_keys try_secondary
try_keys_step e blob = refl

-- Reading a nonce and what follows it.
pub try_all_keys-append :
    (e : Encryptor) (nonce ct : Text)
    → length nonce ≡ e.nonce_size
    → try_all_keys e (nonce ++ ct) ≡ try_secondary (keys_of e) nonce ct
try_all_keys-append e nonce ct same =
    rw (try_keys_step e (nonce ++ ct), sym same, take-append nonce ct, drop-append nonce ct, enough)
      refl
  where
    enough : ltb (length (nonce ++ ct)) (length nonce) ≡ false
    enough = ground (arith, length-append nonce ct)

-- The first key that does not refuse decides.
try_secondary-own :
    (before after : List Aead) (k : Aead) (nonce s : Text)
    → OpensOwn k
    → All (Rejects k) before
    → try_secondary (before ++ k ∷ after) nonce (k.seal nonce s) ≡ some s
unfolding try_secondary
try_secondary-own [] after k nonce s own rejects = rw (own nonce s) refl
try_secondary-own (b ∷ before) after k nonce s own (r, rejects) =
    rw (r nonce s) (try_secondary-own before after k nonce s own rejects)

pub ok_injective : {A : Type 0} {a b : A} → ok a ≡ ok b → a ≡ b
ok_injective h = ground arith

some_injective : {A : Type 0} {a b : A} → some a ≡ some b → a ≡ b
some_injective h = ground arith

-- A text that is not empty is decoded as it was encoded.
decrypt-encode :
    (p : Primitives) (e : Encryptor) (b : ℕ) (raw : Text)
    → IsLawful p
    → decrypt p e (p.base64_encode (b ∷ raw)) ≡ decrypt_raw e (b ∷ raw)
unfolding decrypt
decrypt-encode p e b raw lawful =
    by_text (p.base64_encode (b ∷ raw)) (lawful.decode_encode (b ∷ raw))
  where
    by_text :
        (t : Text) → p.base64_decode t ≡ some (b ∷ raw) → decrypt p e t ≡ decrypt_raw e (b ∷ raw)
    by_text [] h = absurd (nonempty (some_injective (sym lawful.decode_empty ∙ h)))
      where
        nonempty : [] ≡ b ∷ raw → ⊥
        nonempty h = ground arith
    by_text (c ∷ t) h = rw h refl

decrypt_raw-seal :
    (e : Encryptor) (nonce ct plaintext : Text)
    → length nonce ≡ e.nonce_size
    → try_secondary (keys_of e) nonce ct ≡ some plaintext
    → decrypt_raw e (blob_version_v1 ∷ nonce ++ ct) ≡ ok plaintext
unfolding decrypt_raw try_versioned
decrypt_raw-seal e nonce ct plaintext size opened =
    let found : try_all_keys e (nonce ++ ct) ≡ some plaintext =
      try_all_keys-append e nonce ct size ∙ opened in
    ap
      (λ o.
        or_fail CryptoError.decrypt_failed
          (or_else o (try_all_keys e (blob_version_v1 ∷ nonce ++ ct))))
      found

-- What one encryptor writes, whatever its own secondary keys are, another with the same nonce size
-- reads back, wherever the first one's primary key stands among its keys: as its primary key, or, after a rotation, as
-- one of its secondary keys. The codecs are lawful, the key opens what it sealed, and the keys tried before refuse what it sealed.
pub decrypt-encrypt :
    (p : Primitives) (old new : Encryptor) (before after : List Aead) (plaintext blob : Text)
    → IsLawful p
    → old.nonce_size ≡ new.nonce_size
    → keys_of new ≡ before ++ old.primary ∷ after
    → OpensOwn old.primary
    → All (Rejects old.primary) before
    → encrypt p old plaintext ≡ ok blob
    → decrypt p new blob ≡ ok plaintext
unfolding encrypt
decrypt-encrypt p old new before after [] blob lawful size keys own rejects =
    λ h. rw (sym (ok_injective h)) (unfold decrypt in refl)
decrypt-encrypt p old new before after (c ∷ s) blob lawful size keys own rejects =
    by_nonce (p.random old.nonce_size) refl
  where
    by_nonce :
        (o : Option Text)
        → p.random old.nonce_size ≡ o
        → (or_fail CryptoError.no_random o >>= λ nonce.
            ok (p.base64_encode (blob_version_v1 ∷ nonce ++ old.primary.seal nonce (c ∷ s))))
          ≡ ok blob
        → decrypt p new blob ≡ ok (c ∷ s)
    by_nonce none e h = ground arith
    by_nonce (some nonce) e h =
        let opened : try_secondary (keys_of new) nonce (old.primary.seal nonce (c ∷ s))
            ≡ some (c ∷ s) =
          rw keys (try_secondary-own before after old.primary nonce (c ∷ s) own rejects) in
        rw
          (
            sym (ok_injective h),
            decrypt-encode p new blob_version_v1 (nonce ++ old.primary.seal nonce (c ∷ s)) lawful,
          )
          (decrypt_raw-seal new nonce (old.primary.seal nonce (c ∷ s)) (c ∷ s)
            (lawful.random_size old.nonce_size nonce e ∙ size) opened)
