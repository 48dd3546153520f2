-- ===== src/Crypto/Authentic.antt =====
-- What is read was sealed under a key that the encryptor has.
use jira_bot.Base.{
  subst, ◌≤◌, ◌≡◌, refl, sym, ap, ◌∙◌, ltb, nat_beq, Bool-cases, Option-cases, inl, inr, List, [],
  ◌∷◌, Option, none, some, Text, length, take, drop, arith, Has, ◌⊎◌,
}
use jira_bot.Crypto.{
  Aead, Primitives, ok, failed, or_fail, or_else, Encryptor, try_secondary, try_all_keys,
  try_versioned, decrypt_raw, decrypt, blob_version_v1, CryptoError,
}
use jira_bot.Crypto.Rotation.{keys_of, try_keys_step, ok_injective}

-- A key of the encryptor opens the blob, split at the nonce size, to the plaintext.
pub record Opened (e : Encryptor) (blob plaintext : Text) : Type 0 where
  pub key : Aead
  pub known : Has key (keys_of e)
  pub fits : e.nonce_size ≤ length blob
  pub opens : key.open_sealed (take e.nonce_size blob) (drop e.nonce_size blob) ≡ some plaintext

-- A plaintext is that of the empty text, or a key opened the decoded blob, either after the version byte or, in the old
-- layout, from its beginning.
pub data Origin (p : Primitives) (e : Encryptor) : Text → Text → Type 0 where
  empty : Origin p e [] []
  versioned :
      (encoded rest plaintext : Text)
      → p.base64_decode encoded ≡ some (blob_version_v1 ∷ rest)
      → Opened e rest plaintext
      → Origin p e encoded plaintext
  legacy :
      (encoded raw plaintext : Text)
      → p.base64_decode encoded ≡ some raw
      → Opened e raw plaintext
      → Origin p e encoded plaintext

try_secondary-opens :
    (keys : List Aead) (nonce ct plaintext : Text)
    → try_secondary keys nonce ct ≡ some plaintext
    → (k : Aead) × (Has k keys × (k.open_sealed nonce ct ≡ some plaintext))
unfolding try_secondary
try_secondary-opens [] nonce ct plaintext h = ground arith
try_secondary-opens (k ∷ keys) nonce ct plaintext h = elim (Option-cases (k.open_sealed nonce ct)) [
  | inl e ↦
      let (j, (has, opens)) = try_secondary-opens keys nonce ct plaintext (rw e at h) in
      (j, (inr has, opens))
  | inr (t, e) ↦ (k, (inl refl, e ∙ (rw e at h)))
]

try_all_keys-Opened :
    (e : Encryptor) (blob plaintext : Text)
    → try_all_keys e blob ≡ some plaintext
    → Opened e blob plaintext
try_all_keys-Opened e blob plaintext h = elim (Bool-cases (ltb (length blob) e.nonce_size)) [
  | inl short ↦ absurd (impossible (sym (rw (try_keys_step e blob, short) refl) ∙ h))
  | inr long ↦
      let (k, (has, opens)) =
        try_secondary-opens (keys_of e) (take e.nonce_size blob) (drop e.nonce_size blob) plaintext
          (rw (try_keys_step e blob, long) at h) in
      record { key = k; known = has; fits = ground arith; opens = opens }
]
  where
    impossible : none ≡ some plaintext → ⊥
    impossible h = ground arith

try_versioned-Opened :
    (e : Encryptor) (raw plaintext : Text)
    → try_versioned e raw ≡ some plaintext
    → (rest : Text) × ((raw ≡ blob_version_v1 ∷ rest) × Opened e rest plaintext)
unfolding try_versioned
try_versioned-Opened e [] plaintext h = ground arith
try_versioned-Opened e (b ∷ rest) plaintext h = elim (Bool-cases (nat_beq b blob_version_v1)) [
  | inl same ↦ (rest, (ground arith, try_all_keys-Opened e rest plaintext (rw same at h)))
  | inr other ↦ ground arith
]

or_else-cases :
    (a b : Option Text) (t : Text)
    → or_fail CryptoError.decrypt_failed (or_else a b) ≡ ok t
    → (a ≡ some t) ⊎ (b ≡ some t)
or_else-cases none none t h = ground arith
or_else-cases none (some b) t h = inr (ap some (ok_injective h))
or_else-cases (some a) b t h = inl (ap some (ok_injective h))

-- What `Decrypt` returns without an error is the empty text for the empty text, or else what a key
-- of the encryptor opened in the decoded input, which was long enough to hold a nonce: no other text comes out.
decrypt-Origin :
    (p : Primitives) (e : Encryptor) (encoded plaintext : Text)
    → decrypt p e encoded ≡ ok plaintext
    → Origin p e encoded plaintext
unfolding decrypt decrypt_raw
decrypt-Origin p e [] plaintext h = subst (Origin p e []) (ok_injective h) empty
decrypt-Origin p e (c ∷ encoded) plaintext h = elim (Option-cases (p.base64_decode (c ∷ encoded))) [
  | inl bad ↦ absurd (impossible CryptoError.bad_base64 (rw bad at h))
  | inr (raw, e1) ↦ by_layout raw e1 (rw e1 at h)
]
  where
    impossible : (x : CryptoError) → failed x ≡ ok plaintext → ⊥
    impossible x h = ground arith

    by_layout :
        (raw : Text)
        → p.base64_decode (c ∷ encoded) ≡ some raw
        → decrypt_raw e raw ≡ ok plaintext
        → Origin p e (c ∷ encoded) plaintext
    by_layout raw e1 h =
        elim (or_else-cases (try_versioned e raw) (try_all_keys e raw) plaintext h) [
          | inl opened ↦
              let (rest, (split, o)) = try_versioned-Opened e raw plaintext opened in
              versioned (c ∷ encoded) rest plaintext (e1 ∙ ap some split) o
          | inr opened ↦
              legacy (c ∷ encoded) raw plaintext e1 (try_all_keys-Opened e raw plaintext opened)
        ]
