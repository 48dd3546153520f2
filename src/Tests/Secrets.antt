-- ===== src/Tests/Secrets.antt =====
-- Encryption under a toy cipher: a ciphertext is the key's first byte and the plaintext.
use jira_bot.Base.{
  ℕ, zero, suc, ◌≡◌, ◌≢◌, refl, sym, ap, ◌∙◌, [], ◌∷◌, Option, none, some, if◌then◌else◌, nat_beq,
  Text, codes, length, arith,
}
use jira_bot.Crypto.{
  Aead, Primitives, ok, Encryptor, encrypt, decrypt, decrypt_raw, try_versioned, try_all_keys,
  try_secondary, new_gcm, new_encryptor, add_secondary_key, add_previous, new_encryptor_from_hex,
}
use jira_bot.Crypto.Rotation.{IsLawful}
use jira_bot.Crypto.Keys.{rotate}

abbrev open_toy : ℕ → Text → Option Text
open_toy tag [] = none
open_toy tag (c ∷ s) = if nat_beq c tag then some s else none

abbrev toy : ℕ → Aead
toy tag = record {
  nonce_size = 2;
  seal = λ nonce s. tag ∷ s;
  open_sealed = λ nonce ct. open_toy tag ct;
}

abbrev toy_of : Text → Option Aead
toy_of [] = none
toy_of (tag ∷ key) = some (toy tag)

abbrev repeated : ℕ → ℕ → Text
repeated zero c = []
repeated (suc n) c = c ∷ repeated n c

length-repeated : (n c : ℕ) → length (repeated n c) ≡ n
length-repeated zero c = refl
length-repeated (suc n) c = ap suc (length-repeated n c)

abbrev primitives : Primitives
primitives = record {
  aead = toy_of;
  hex_decode = λ s. some s;
  base64_encode = λ s. s;
  base64_decode = λ s. some s;
  random = λ n. some (repeated n 7);
}

primitives-IsLawful : IsLawful primitives
primitives-IsLawful = record {
  decode_encode = λ s. refl;
  decode_empty = refl;
  random_size = λ n nonce e. sized n nonce e;
}
  where
    sized : (n : ℕ) (nonce : Text) → some (repeated n 7) ≡ some nonce → length nonce ≡ n
    sized n nonce e =
        let same : repeated n 7 ≡ nonce = ground arith in ap length (sym same) ∙ length-repeated n 7

abbrev first_key : Text
first_key = 1 ∷ repeated 31 0

abbrev second_key : Text
second_key = 2 ∷ repeated 31 0

abbrev old : Encryptor
old = record { primary = toy 1; secondary = []; nonce_size = 2; primary_raw = first_key }

abbrev rotated : Encryptor
rotated = record {
  primary = toy 2;
  secondary = toy 1 ∷ [];
  nonce_size = 2;
  primary_raw = second_key;
}

abbrev blob : Text
blob = 1 ∷ 7 ∷ 7 ∷ 1 ∷ codes "hi"

old_made : new_encryptor_from_hex primitives first_key [] ≡ ok old
unfolding new_encryptor_from_hex new_encryptor new_gcm add_previous
old_made = refl

rotated_made : new_encryptor_from_hex primitives second_key first_key ≡ ok rotated
unfolding new_encryptor_from_hex new_encryptor new_gcm add_previous add_secondary_key
rotated_made = refl

written : encrypt primitives old (codes "hi") ≡ ok blob
unfolding encrypt
written = refl

read_back : decrypt primitives rotated blob ≡ ok (codes "hi")
unfolding decrypt decrypt_raw try_versioned try_all_keys try_secondary
read_back = refl

first_key-IsGiven : first_key ≢ []
first_key-IsGiven h = ground arith

rotate_example : decrypt primitives rotated blob ≡ ok (codes "hi")
rotate_example =
    rotate primitives first_key [] second_key (codes "hi") blob old rotated primitives-IsLawful
      first_key-IsGiven old_made rotated_made (λ nonce s. refl) (λ nonce s. refl) written
