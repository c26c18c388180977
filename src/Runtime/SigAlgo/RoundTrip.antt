-- ===== src/Runtime/SigAlgo/RoundTrip.antt =====
-- ace-runtime/src/crypto/sig_algo.rs: the wire formats read back.
use ace_chain.Common.{
  ℕ, suc, ◌+◌, ◌/◌, ◌%◌, ◌≤◌, ◌<◌, ◌≡◌, refl, ap, ◌∙◌, Bool, true, false, not, ◌&&◌, ◌||◌, Option,
  none, some, List, [], ◌∷◌, ◌++◌, ◌==◌, leb, ltb, length, take, length-append, take-append,
  length-take, le_bytes, of_le_bytes, arith, ==_iff, All,
}
use ace_chain.Runtime.SigAlgo.{
  SignatureAlgorithm, ed25519, secp256k1, ml_dsa_44, hmac_sha256, TaggedPubkey, TaggedSignature,
  tag, pubkey_len, signature_len, key_well_formed,
}
use ace_chain.Runtime.SigAlgo.Wire.{
  WireResult, ok, err, unknown_tag, from_tag, wire_bytes, key_to_wire_bytes, sig_to_wire_bytes,
  key_body, key_from_wire_bytes, is_stripped, sig_body, sig_from_wire_bytes,
}

from_tag-tag : (a : SignatureAlgorithm) → from_tag (tag a) ≡ some a
from_tag-tag ed25519 = refl
from_tag-tag secp256k1 = refl
from_tag-tag ml_dsa_44 = refl
from_tag-tag hmac_sha256 = refl

tag-from_tag : (t : ℕ) (a : SignatureAlgorithm) → from_tag t ≡ some a → tag a ≡ t
tag-from_tag t ed25519 e = ground arith
tag-from_tag t secp256k1 e = ground arith
tag-from_tag t ml_dsa_44 e = ground arith
tag-from_tag t hmac_sha256 e = ground arith

length_word : (n : ℕ) → n ≤ 65535 → of_le_bytes (n % 256 ∷ n / 256 % 256 ∷ []) ≡ n
length_word n p = omega arith

length_digits :
    (low high : ℕ)
    → low < 256
    → high < 256
    → let n = of_le_bytes (low ∷ high ∷ []) in (n % 256 ≡ low) × (n / 256 % 256 ≡ high)
length_digits low high p q = (omega arith, omega arith)

three_more : (n : ℕ) → 3 + n ≡ suc (suc (suc n))
three_more n = omega arith

pubkey_len-le : (a : SignatureAlgorithm) → pubkey_len a ≤ 1312
pubkey_len-le ed25519 = omega arith
pubkey_len-le secp256k1 = omega arith
pubkey_len-le ml_dsa_44 = omega arith
pubkey_len-le hmac_sha256 = omega arith

key_body-append :
    (k : TaggedPubkey) (rest : List ℕ)
    → key_well_formed k ≡ true
    → key_body k.algorithm (length k.bytes) (k.bytes ++ rest) ≡ ok (k, 3 + length k.bytes)
unfolding key_body key_well_formed
key_body-append k rest p =
    let long : ltb (length (k.bytes ++ rest)) (length k.bytes) ≡ false =
      ground (arith, length-append k.bytes rest) in
    rw (p, long, take-append k.bytes rest) refl

key_from_wire-eq :
    (t low high : ℕ) (rest : List ℕ) (a : SignatureAlgorithm)
    → from_tag t ≡ some a
    → key_from_wire_bytes (t ∷ low ∷ high ∷ rest) ≡ key_body a (of_le_bytes (low ∷ high ∷ [])) rest
unfolding key_from_wire_bytes
key_from_wire-eq t low high rest a e = rw (e, key_from_wire_bytes) refl

-- A well-formed key is written, and read back from the front of whatever bytes it stands before, with
-- the number of bytes that it took.
pub key_wire-roundtrip :
    (k : TaggedPubkey) (rest : List ℕ)
    → key_well_formed k ≡ true
    → (wire : List ℕ) × (key_to_wire_bytes k ≡ some wire)
      × (key_from_wire_bytes (wire ++ rest) ≡ ok (k, length wire))
unfolding key_to_wire_bytes wire_bytes key_well_formed
key_wire-roundtrip k rest p =
    let n = length k.bytes in
    let size : n ≤ 65535 =
      omega (arith, pubkey_len-le k.algorithm, (==_iff n (pubkey_len k.algorithm)).0 p) in
    let fits : leb n 65535 ≡ true = ground (arith, size) in
    (
      tag k.algorithm ∷ le_bytes 2 n ++ k.bytes,
      rw fits refl,
      key_from_wire-eq (tag k.algorithm) (n % 256) (n / 256 % 256) (k.bytes ++ rest) k.algorithm
            (from_tag-tag k.algorithm)
          ∙ rw (length_word n size) (key_body-append k rest p ∙ ap (λ u. ok (k, u)) (three_more n)),
    )

key_body-ok :
    (a : SignatureAlgorithm) (n : ℕ) (rest : List ℕ) (k : TaggedPubkey) (used : ℕ)
    → key_body a n rest ≡ ok (k, used)
    → (n ≡ pubkey_len a)
      × (n ≤ length rest)
      × (k ≡ record { algorithm = a; bytes = take n rest })
      × (used ≡ 3 + n)
unfolding key_body
key_body-ok a n rest k used e = ground (arith, e)

key_read :
    (t low high : ℕ) (rest : List ℕ) (a : SignatureAlgorithm) (k : TaggedPubkey) (used : ℕ)
    → from_tag t ≡ some a
    → low < 256
    → high < 256
    → key_body a (of_le_bytes (low ∷ high ∷ [])) rest ≡ ok (k, used)
    → (key_well_formed k ≡ true)
      × (used ≤ length (t ∷ low ∷ high ∷ rest))
      × (key_to_wire_bytes k ≡ some (take used (t ∷ low ∷ high ∷ rest)))
unfolding key_to_wire_bytes wire_bytes key_well_formed
key_read t low high rest a k used f p q e =
    let n = of_le_bytes (low ∷ high ∷ []) in
    let (long, enough, same, count) = key_body-ok a n rest k used e in
    let size = length-take n rest enough in
    let small : leb n 65535 ≡ true = ground (arith, long, pubkey_len-le a) in
    let (first, second) = length_digits low high p q in
    rw (same, count, three_more n, size, small, tag-from_tag t a f, first, second)
      (ground (arith, long), omega (arith, enough), refl)

-- Bytes that are read as a key are of a well-formed one, and the bytes taken are exactly those that
-- the key is written as: no other bytes stand for it.
pub key_wire-canonical :
    (wire : List ℕ) (k : TaggedPubkey) (used : ℕ)
    → All (λ b. b < 256) wire
    → key_from_wire_bytes wire ≡ ok (k, used)
    → (key_well_formed k ≡ true)
      × (used ≤ length wire)
      × (key_to_wire_bytes k ≡ some (take used wire))
unfolding key_from_wire_bytes
key_wire-canonical [] k used small e = cc
key_wire-canonical (a ∷ []) k used small e = cc
key_wire-canonical (a ∷ b ∷ []) k used small e = cc
key_wire-canonical (t ∷ low ∷ high ∷ rest) k used small e = go (from_tag t) refl e
  where
    go :
        (o : Option SignatureAlgorithm)
        → from_tag t ≡ o
        → elim o as (λ _. WireResult (TaggedPubkey × ℕ)) [
          | none ↦ err unknown_tag
          | some algorithm ↦ key_body algorithm (of_le_bytes (low ∷ high ∷ [])) rest
        ]
          ≡ ok (k, used)
        → (key_well_formed k ≡ true)
          × (used ≤ length (t ∷ low ∷ high ∷ rest))
          × (key_to_wire_bytes k ≡ some (take used (t ∷ low ∷ high ∷ rest)))
    go none f e = cc
    go (some a) f e = key_read t low high rest a k used f (small.1.0) (small.1.1.0) e

-- A signature that the wire format admits: well-formed, or the placeholder without bytes.
abbrev pub sig_admitted : TaggedSignature → Bool
sig_admitted s =
    is_stripped s.algorithm (length s.bytes) || length s.bytes == signature_len s.algorithm

signature_len-le : (a : SignatureAlgorithm) → signature_len a ≤ 2420
signature_len-le ed25519 = omega arith
signature_len-le secp256k1 = omega arith
signature_len-le ml_dsa_44 = omega arith
signature_len-le hmac_sha256 = omega arith

sig_body-append :
    (s : TaggedSignature) (rest : List ℕ)
    → sig_admitted s ≡ true
    → sig_body s.algorithm (length s.bytes) (s.bytes ++ rest) ≡ ok (s, 3 + length s.bytes)
unfolding sig_body
sig_body-append s rest p =
    let long : ltb (length (s.bytes ++ rest)) (length s.bytes) ≡ false =
      ground (arith, length-append s.bytes rest) in
    let accepted : (not (is_stripped s.algorithm (length s.bytes))
          && not (length s.bytes == signature_len s.algorithm))
        ≡ false =
      ground (arith, p) in
    rw (accepted, long, take-append s.bytes rest) refl

sig_from_wire-eq :
    (t low high : ℕ) (rest : List ℕ) (a : SignatureAlgorithm)
    → from_tag t ≡ some a
    → sig_from_wire_bytes (t ∷ low ∷ high ∷ rest) ≡ sig_body a (of_le_bytes (low ∷ high ∷ [])) rest
unfolding sig_from_wire_bytes
sig_from_wire-eq t low high rest a e = rw (e, sig_from_wire_bytes) refl

-- A signature that is well-formed or a stripped ML-DSA placeholder is written, and read back from the
-- front of whatever bytes it stands before, with the number of bytes that it took.
pub sig_wire-roundtrip :
    (s : TaggedSignature) (rest : List ℕ)
    → sig_admitted s ≡ true
    → (wire : List ℕ) × (sig_to_wire_bytes s ≡ some wire)
      × (sig_from_wire_bytes (wire ++ rest) ≡ ok (s, length wire))
unfolding sig_to_wire_bytes wire_bytes
sig_wire-roundtrip s rest p =
    let n = length s.bytes in
    let size : n ≤ 65535 = ground (arith, signature_len-le s.algorithm, p) in
    let fits : leb n 65535 ≡ true = ground (arith, size) in
    (
      tag s.algorithm ∷ le_bytes 2 n ++ s.bytes,
      rw fits refl,
      sig_from_wire-eq (tag s.algorithm) (n % 256) (n / 256 % 256) (s.bytes ++ rest) s.algorithm
            (from_tag-tag s.algorithm)
          ∙ rw (length_word n size) (sig_body-append s rest p ∙ ap (λ u. ok (s, u)) (three_more n)),
    )
