-- ===== src/Runtime/SigAlgo.antt =====
-- ace-runtime/src/crypto/sig_algo.rs: tagged keys and signatures, and the dispatch of a
-- verification. Bytes are numbers. The verifiers of the four algorithms and SHA-256 are other
-- projects' code, and are the fields of the parameter `Crypto`.
pub mod Wire
pub mod RoundTrip
mod Tests
use ace_chain.Common.{ℕ, Bool, false, not, ◌||◌, List, ◌==◌, if◌then◌else◌, length}

pub data SignatureAlgorithm : Type 0 where
  ed25519 secp256k1 ml_dsa_44 hmac_sha256 : SignatureAlgorithm

pub record TaggedPubkey : Type 0 where
  pub algorithm : SignatureAlgorithm
  pub bytes : List ℕ

pub record TaggedSignature : Type 0 where
  pub algorithm : SignatureAlgorithm
  pub bytes : List ℕ

abbrev pub tag : SignatureAlgorithm → ℕ
tag ed25519 = 0
tag secp256k1 = 1
tag ml_dsa_44 = 2
tag hmac_sha256 = 3

abbrev pub pubkey_len : SignatureAlgorithm → ℕ
pubkey_len ed25519 = 32
pubkey_len secp256k1 = 33
pubkey_len ml_dsa_44 = 1312
pubkey_len hmac_sha256 = 32

abbrev pub signature_len : SignatureAlgorithm → ℕ
signature_len ed25519 = 64
signature_len secp256k1 = 64
signature_len ml_dsa_44 = 2420
signature_len hmac_sha256 = 32

unfoldable pub key_well_formed : TaggedPubkey → Bool
key_well_formed k = length k.bytes == pubkey_len k.algorithm

unfoldable pub sig_well_formed : TaggedSignature → Bool
sig_well_formed s = length s.bytes == signature_len s.algorithm

-- `a == b` on the fieldless enum.
abbrev pub same_algorithm : SignatureAlgorithm → SignatureAlgorithm → Bool
same_algorithm a b = tag a == tag b

-- SHA-256 gives the number that its 32 bytes spell, most significant first; a verifier takes the
-- key, the message and the signature.
pub record Crypto : Type 0 where
  pub sha256 : List ℕ → ℕ
  pub verify_ed25519 : List ℕ → ℕ → List ℕ → Bool
  pub verify_secp256k1 : List ℕ → ℕ → List ℕ → Bool
  pub verify_ml_dsa_44 : List ℕ → ℕ → List ℕ → Bool
  pub verify_hmac_sha256 : List ℕ → ℕ → List ℕ → Bool

abbrev pub backend : Crypto → SignatureAlgorithm → List ℕ → ℕ → List ℕ → Bool
backend c ed25519 = c.verify_ed25519
backend c secp256k1 = c.verify_secp256k1
backend c ml_dsa_44 = c.verify_ml_dsa_44
backend c hmac_sha256 = c.verify_hmac_sha256

unfoldable pub verify_signature : Crypto → TaggedPubkey → ℕ → TaggedSignature → Bool
unfolding key_well_formed sig_well_formed
verify_signature c pubkey message sig =
    if not (same_algorithm pubkey.algorithm sig.algorithm)
    then false
    else if not (key_well_formed pubkey) || not (sig_well_formed sig)
    then false
    else backend c pubkey.algorithm pubkey.bytes message sig.bytes
