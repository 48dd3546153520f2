-- ===== src/Crypto.antt =====
-- internal/crypto/crypto.go: encryption of what is stored, with keys that can be rotated. AES-GCM,
-- hexadecimal, base64 and the random source are not under the repository: they are the fields of
-- `Primitives`. Bytes are natural numbers.
pub mod Rotation
pub mod Keys
pub mod Authentic
use jira_bot.Base.{
  ℕ, zero, suc, ltb, nat_beq, if◌then◌else◌, Bool, List, [], ◌∷◌, ◌++◌, Option, none, some, Text,
  length, take, drop,
}

-- `cipher.AEAD` with a key: `seal` and `open_sealed` take the nonce first; `open_sealed` may refuse.
pub record Aead : Type 0 where
  pub nonce_size : ℕ
  pub seal : Text → Text → Text
  pub open_sealed : Text → Text → Option Text

pub record Primitives : Type 0 where
  -- `aes.NewCipher` and `cipher.NewGCM` on a key of 32 bytes; `none` where either fails.
  pub aead : Text → Option Aead
  pub hex_decode : Text → Option Text
  pub base64_encode : Text → Text
  pub base64_decode : Text → Option Text
  -- `io.ReadFull(rand.Reader, nonce)` for so many bytes.
  pub random : ℕ → Option Text

pub data CryptoError : Type 0 where
  bad_key_length bad_cipher bad_hex bad_nonce_size no_random bad_base64 decrypt_failed : CryptoError

pub data Result (A : Type 0) : Type 0 where
  ok : A → Result A
  failed : CryptoError → Result A

infixl 5 ◌>>=◌
abbrev pub ◌>>=◌ : {A B : Type 0} → Result A → (A → Result B) → Result B
ok a >>= f = f a
failed e >>= f = failed e

abbrev pub or_fail : {A : Type 0} → CryptoError → Option A → Result A
or_fail e none = failed e
or_fail e (some a) = ok a

pub record Encryptor : Type 0 where
  pub primary : Aead
  pub secondary : List Aead
  pub nonce_size : ℕ
  pub primary_raw : Text

unfoldable pub new_gcm : Primitives → Text → Result Aead
new_gcm p key =
    if nat_beq (length key) 32 then or_fail bad_cipher (p.aead key) else failed bad_key_length

unfoldable pub new_encryptor : Primitives → Text → Result Encryptor
new_encryptor p key = do
  gcm ← new_gcm p key
  ok (record { primary = gcm; secondary = []; nonce_size = gcm.nonce_size; primary_raw = key })

abbrev pub with_secondary : Encryptor → Aead → Result Encryptor
with_secondary e gcm =
    if nat_beq gcm.nonce_size e.nonce_size
    then ok (record e { secondary = e.secondary ++ gcm ∷ [] })
    else failed bad_nonce_size

unfoldable pub add_secondary_key : Primitives → Encryptor → Text → Result Encryptor
add_secondary_key p e key = do gcm ← new_gcm p key; with_secondary e gcm

-- The previous key, where one is given.
unfoldable pub add_previous : Primitives → Encryptor → Text → Result Encryptor
add_previous p e [] = ok e
add_previous p e (c ∷ previous) = do
  key ← or_fail bad_hex (p.hex_decode (c ∷ previous))
  add_secondary_key p e key

unfoldable pub new_encryptor_from_hex : Primitives → (primary previous : Text) → Result Encryptor
new_encryptor_from_hex p primary previous = do
  key ← or_fail bad_hex (p.hex_decode primary)
  e ← new_encryptor p key
  add_previous p e previous

abbrev pub blob_version_v1 : ℕ
blob_version_v1 = 1

unfoldable pub encrypt : Primitives → Encryptor → Text → Result Text
encrypt p e [] = ok []
encrypt p e (c ∷ plaintext) = do
  nonce ← or_fail no_random (p.random e.nonce_size)
  ok (p.base64_encode (blob_version_v1 ∷ nonce ++ e.primary.seal nonce (c ∷ plaintext)))

-- The first of two readings that succeeds.
abbrev pub or_else : Option Text → Option Text → Option Text
or_else none later = later
or_else (some plaintext) later = some plaintext

-- The first of the keys that opens a ciphertext.
unfoldable pub try_secondary : List Aead → (nonce ct : Text) → Option Text
try_secondary [] nonce ct = none
try_secondary (k ∷ keys) nonce ct = or_else (k.open_sealed nonce ct) (try_secondary keys nonce ct)

unfoldable pub try_all_keys : Encryptor → Text → Option Text
try_all_keys e blob =
    let nonce = take e.nonce_size blob in
    let ct = drop e.nonce_size blob in
    if ltb (length blob) e.nonce_size
    then none
    else or_else (e.primary.open_sealed nonce ct) (try_secondary e.secondary nonce ct)

-- The reading of a blob with a version byte; `none` where it has none or no key opens it.
unfoldable pub try_versioned : Encryptor → Text → Option Text
try_versioned e [] = none
try_versioned e (b ∷ rest) = if nat_beq b blob_version_v1 then try_all_keys e rest else none

unfoldable pub decrypt_raw : Encryptor → Text → Result Text
decrypt_raw e raw = or_fail decrypt_failed (or_else (try_versioned e raw) (try_all_keys e raw))

unfoldable pub decrypt : Primitives → Encryptor → Text → Result Text
decrypt p e [] = ok []
decrypt p e (c ∷ encoded) = do
  raw ← or_fail bad_base64 (p.base64_decode (c ∷ encoded))
  decrypt_raw e raw
