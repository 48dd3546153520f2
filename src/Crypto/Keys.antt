-- ===== src/Crypto/Keys.antt =====
-- Which keys an encryptor gets from the configuration, and what a rotation of them keeps readable.
use jira_bot.Base.{
  ◌≡◌, refl, sym, ap, ◌∙◌, nat_beq, Bool-cases, inl, inr, [], ◌∷◌, ◌++◌, Option, none, some, Text,
  arith, subst, ◌≢◌,
}
use jira_bot.Crypto.{
  Aead, Primitives, Result, ok, failed, or_fail, ◌>>=◌, Encryptor, encrypt, decrypt, new_gcm,
  new_encryptor, add_secondary_key, with_secondary, add_previous, new_encryptor_from_hex,
  CryptoError, bad_hex, bad_nonce_size,
}
use jira_bot.Crypto.Rotation.{ok_injective, OpensOwn, Rejects, IsLawful, decrypt-encrypt}

bind_ok :
    {A B : Type 0} (m : Result A) (f : A → Result B) (b : B)
    → (m >>= f) ≡ ok b
    → (a : A) × ((m ≡ ok a) × (f a ≡ ok b))
bind_ok (ok a) f b h = (a, (refl, h))
bind_ok (failed e) f b h = ground arith

or_fail_ok : {A : Type 0} (e : CryptoError) (o : Option A) (a : A) → or_fail e o ≡ ok a → o ≡ some a
or_fail_ok e none a h = ground arith
or_fail_ok e (some b) a h = ap some (ok_injective h)

-- The primary key comes from the first text.
record IsMade (p : Primitives) (hex : Text) (e : Encryptor) : Type 0 where
  key : Text
  decoded : p.hex_decode hex ≡ some key
  made : new_gcm p key ≡ ok e.primary
  size : e.nonce_size ≡ e.primary.nonce_size

-- Adding a key leaves the primary key as it was.
record IsExtended (p : Primitives) (hex : Text) (e e' : Encryptor) : Type 0 where
  key : Text
  gcm : Aead
  decoded : p.hex_decode hex ≡ some key
  made : new_gcm p key ≡ ok gcm
  same_primary : e'.primary ≡ e.primary
  same_size : e'.nonce_size ≡ e.nonce_size
  secondary : e'.secondary ≡ e.secondary ++ gcm ∷ []
  fits : gcm.nonce_size ≡ e.nonce_size

with_secondary_ok :
    (e e' : Encryptor) (gcm : Aead)
    → with_secondary e gcm ≡ ok e'
    → (gcm.nonce_size ≡ e.nonce_size) × (record e { secondary = e.secondary ++ gcm ∷ [] } ≡ e')
with_secondary_ok e e' gcm h = elim (Bool-cases (nat_beq gcm.nonce_size e.nonce_size)) [
  | inl same ↦ (ground arith, ok_injective (rw same at h))
  | inr other ↦ absurd (impossible (rw other at h))
]
  where
    impossible : failed bad_nonce_size ≡ ok e' → ⊥
    impossible h = ground arith

add_previous-IsExtended :
    (p : Primitives) (hex : Text) (e e' : Encryptor)
    → hex ≢ []
    → add_previous p e hex ≡ ok e'
    → IsExtended p hex e e'
unfolding add_previous add_secondary_key
add_previous-IsExtended p [] e e' given h = absurd (given refl)
add_previous-IsExtended p (c ∷ hex) e e' given h =
    let (key, (decoded, h1)) =
      bind_ok (or_fail bad_hex (p.hex_decode (c ∷ hex))) (λ key. add_secondary_key p e key) e' h in
    let (gcm, (made, h2)) = bind_ok (new_gcm p key) (λ gcm. with_secondary e gcm) e' h1 in
    let (fits, same) = with_secondary_ok e e' gcm h2 in
    record {
      key = key;
      gcm = gcm;
      decoded = or_fail_ok bad_hex (p.hex_decode (c ∷ hex)) key decoded;
      made = made;
      same_primary = sym (ap (λ (x : Encryptor). x.primary) same);
      same_size = sym (ap (λ (x : Encryptor). x.nonce_size) same);
      secondary = sym (ap (λ (x : Encryptor). x.secondary) same);
      fits = fits;
    }

new_encryptor-lem :
    (p : Primitives) (key : Text) (e : Encryptor)
    → new_encryptor p key ≡ ok e
    → (new_gcm p key ≡ ok e.primary) × ((e.nonce_size ≡ e.primary.nonce_size) × (e.secondary ≡ []))
unfolding new_encryptor
new_encryptor-lem p key e h =
    let (gcm, (made, h1)) =
      bind_ok (new_gcm p key)
        (λ gcm. ok (record {
          primary = gcm;
          secondary = [];
          nonce_size = gcm.nonce_size;
          primary_raw = key;
        }))
        e h in
    subst
      (λ (x : Encryptor).
        (new_gcm p key ≡ ok x.primary)
        × ((x.nonce_size ≡ x.primary.nonce_size) × (x.secondary ≡ [])))
      (ok_injective h1) (made, (refl, refl))

-- What is known of an encryptor before a previous key is added to it.
record Start (p : Primitives) (hex previous : Text) (e : Encryptor) : Type 0 where
  base : Encryptor
  is_made : IsMade p hex base
  alone : base.secondary ≡ []
  added : add_previous p base previous ≡ ok e

from_hex-Start :
    (p : Primitives) (hex previous : Text) (e : Encryptor)
    → new_encryptor_from_hex p hex previous ≡ ok e
    → Start p hex previous e
unfolding new_encryptor_from_hex
from_hex-Start p hex previous e h =
    let (key, (decoded, h1)) =
      bind_ok (or_fail bad_hex (p.hex_decode hex))
        (λ key. new_encryptor p key >>= λ e. add_previous p e previous) e h in
    let (base, (made, h2)) = bind_ok (new_encryptor p key) (λ e. add_previous p e previous) e h1 in
    let (gcm, (size, alone)) = new_encryptor-lem p key base made in
    record {
      base = base;
      is_made = record {
        key = key;
        decoded = or_fail_ok bad_hex (p.hex_decode hex) key decoded;
        made = gcm;
        size = size;
      };
      alone = alone;
      added = h2;
    }

from_hex-IsMade :
    (p : Primitives) (hex previous : Text) (e : Encryptor)
    → new_encryptor_from_hex p hex previous ≡ ok e
    → IsMade p hex e
from_hex-IsMade p hex previous e h = by_previous previous (from_hex-Start p hex previous e h)
  where
    by_previous : (previous : Text) → Start p hex previous e → IsMade p hex e
    by_previous [] s =
        let same : ok s.base ≡ ok e = unfold add_previous in s.added in
        subst (IsMade p hex) (ok_injective same) s.is_made
    by_previous (c ∷ previous) s =
        let x = add_previous-IsExtended p (c ∷ previous) s.base e (ground arith) s.added in
        record {
          key = s.is_made.key;
          decoded = s.is_made.decoded;
          made = s.is_made.made ∙ ap ok (sym x.same_primary);
          size =
              x.same_size ∙ s.is_made.size ∙ ap (λ (k : Aead). k.nonce_size) (sym x.same_primary);
        }

-- An encryption key can be rotated without losing what was stored. If `hex` made the encryptor
-- that wrote a blob, and `hex'` with `hex` as the previous key makes another, the other reads back
-- what the first wrote. The codecs are lawful, the old key opens what it sealed, the new
-- key refuses what the old one sealed, and `hex` is not empty. That both keys have one nonce size is not assumed: the constructor checks it.
pub rotate :
    (p : Primitives) (hex previous hex' plaintext blob : Text) (old new : Encryptor)
    → IsLawful p
    → hex ≢ []
    → new_encryptor_from_hex p hex previous ≡ ok old
    → new_encryptor_from_hex p hex' hex ≡ ok new
    → OpensOwn old.primary
    → Rejects old.primary new.primary
    → encrypt p old plaintext ≡ ok blob
    → decrypt p new blob ≡ ok plaintext
rotate p hex previous hex' plaintext blob old new lawful given made_old made_new own rejects
      written =
    let o = from_hex-IsMade p hex previous old made_old in
    let s = from_hex-Start p hex' hex new made_new in
    let x = add_previous-IsExtended p hex s.base new given s.added in
    let same_key : o.key ≡ x.key = some_injective (sym o.decoded ∙ x.decoded) in
    let same_gcm : old.primary ≡ x.gcm =
      ok_injective (sym o.made ∙ ap (new_gcm p) same_key ∙ x.made) in
    decrypt-encrypt p old new (new.primary ∷ []) [] plaintext blob lawful
      (o.size ∙ ap (λ (k : Aead). k.nonce_size) same_gcm ∙ x.fits ∙ sym x.same_size)
      (ap (λ ks. new.primary ∷ ks)
        (x.secondary ∙ ap (λ ks. ks ++ x.gcm ∷ []) s.alone ∙ ap (λ k. k ∷ []) (sym same_gcm)))
      own (rejects, tt) written
  where
    some_injective : {A : Type 0} {a b : A} → some a ≡ some b → a ≡ b
    some_injective h = ground arith
