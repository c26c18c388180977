-- ===== src/Runtime/SigAlgo/Wire.antt =====
-- ace-runtime/src/crypto/sig_algo.rs: tagged keys and signatures as wire bytes.
use ace_chain.Common.{
  ℕ, ◌+◌, Bool, not, ◌&&◌, Option, none, some, List, [], ◌∷◌, ◌++◌, ◌==◌, leb, ltb, if◌then◌else◌,
  length, take, le_bytes, of_le_bytes,
}
use ace_chain.Runtime.SigAlgo.{
  SignatureAlgorithm, ed25519, secp256k1, ml_dsa_44, hmac_sha256, TaggedPubkey, TaggedSignature,
  tag, pubkey_len, signature_len, same_algorithm,
}

-- The error texts.
pub data WireError : Type 0 where
  too_short unknown_tag wrong_length truncated : WireError

pub data WireResult {ℓ} (A : Type ℓ) : Type ℓ where
  ok : A → WireResult A
  err : WireError → WireResult A

abbrev pub from_tag : ℕ → Option SignatureAlgorithm
from_tag t =
    if t == 0
    then some ed25519
    else if t == 1
    then some secp256k1
    else if t == 2
    then some ml_dsa_44
    else if t == 3
    then some hmac_sha256
    else none

-- A tag, a length of two bytes and the material. The code asserts that the length fits them, and
-- `none` stands for its panic.
unfoldable pub wire_bytes : SignatureAlgorithm → List ℕ → Option (List ℕ)
wire_bytes algorithm bytes =
    if leb (length bytes) 65535
    then some (tag algorithm ∷ le_bytes 2 (length bytes) ++ bytes)
    else none

unfoldable pub key_to_wire_bytes : TaggedPubkey → Option (List ℕ)
unfolding wire_bytes
key_to_wire_bytes k = wire_bytes k.algorithm k.bytes

unfoldable pub sig_to_wire_bytes : TaggedSignature → Option (List ℕ)
unfolding wire_bytes
sig_to_wire_bytes s = wire_bytes s.algorithm s.bytes

-- What follows the tag, once it is known and the length read: the key and the bytes consumed.
unfoldable pub key_body : SignatureAlgorithm → ℕ → List ℕ → WireResult (TaggedPubkey × ℕ)
key_body algorithm key_len rest =
    if not (key_len == pubkey_len algorithm)
    then err wrong_length
    else if ltb (length rest) key_len
    then err truncated
    else ok (record { algorithm = algorithm; bytes = take key_len rest }, 3 + key_len)

unfoldable pub key_from_wire_bytes : List ℕ → WireResult (TaggedPubkey × ℕ)
unfolding key_body
key_from_wire_bytes (t ∷ low ∷ high ∷ rest) = elim (from_tag t) [
  | none ↦ err unknown_tag
  | some algorithm ↦ key_body algorithm (of_le_bytes (low ∷ high ∷ [])) rest
]
key_from_wire_bytes _ = err too_short

-- `ml_dsa_44_stripped`: no bytes, for the relay path.
abbrev pub is_stripped : SignatureAlgorithm → ℕ → Bool
is_stripped algorithm sig_len = same_algorithm algorithm ml_dsa_44 && sig_len == 0

unfoldable pub sig_body : SignatureAlgorithm → ℕ → List ℕ → WireResult (TaggedSignature × ℕ)
sig_body algorithm sig_len rest =
    if not (is_stripped algorithm sig_len) && not (sig_len == signature_len algorithm)
    then err wrong_length
    else if ltb (length rest) sig_len
    then err truncated
    else ok (record { algorithm = algorithm; bytes = take sig_len rest }, 3 + sig_len)

unfoldable pub sig_from_wire_bytes : List ℕ → WireResult (TaggedSignature × ℕ)
unfolding sig_body
sig_from_wire_bytes (t ∷ low ∷ high ∷ rest) = elim (from_tag t) [
  | none ↦ err unknown_tag
  | some algorithm ↦ sig_body algorithm (of_le_bytes (low ∷ high ∷ [])) rest
]
sig_from_wire_bytes _ = err too_short
