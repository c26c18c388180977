-- ===== src/Runtime/SigAlgo/Tests.antt =====
-- ace-runtime/src/crypto/sig_algo.rs: runs of the wire formats.
use ace_chain.Common.{
  ℕ, Bool, ◌<◌, ltb, ◌&&◌, All, ◌≡◌, refl, true, some, List, [], ◌∷◌, ◌++◌, length, replicate,
  arith,
}
use ace_chain.Runtime.SigAlgo.{ed25519, ml_dsa_44, TaggedPubkey, TaggedSignature, key_well_formed}
use ace_chain.Runtime.SigAlgo.Wire.{
  ok, err, truncated, key_to_wire_bytes, key_from_wire_bytes, sig_to_wire_bytes,
  sig_from_wire_bytes,
}
use ace_chain.Runtime.SigAlgo.RoundTrip.{key_wire-roundtrip, sig_wire-roundtrip}

abbrev all_small : List ℕ → Bool
all_small [] = true
all_small (b ∷ bs) = ltb b 256 && all_small bs

small_bytes : (bs : List ℕ) → all_small bs ≡ true → All (λ b. b < 256) bs
small_bytes [] e = tt
small_bytes (b ∷ bs) e = (ground (arith, e), small_bytes bs (ground (arith, e)))

abbrev key_bytes : List ℕ
key_bytes = replicate 32 7

abbrev key : TaggedPubkey
key = record { algorithm = ed25519; bytes = key_bytes }

abbrev stripped : TaggedSignature
stripped = record { algorithm = ml_dsa_44; bytes = [] }

abbrev tail : List ℕ
tail = 1 ∷ 2 ∷ []

key_cut : key_from_wire_bytes (0 ∷ 32 ∷ 0 ∷ tail) ≡ err truncated
unfolding key_from_wire_bytes
key_cut = refl

key_wire-roundtrip_example :
    (wire : List ℕ) × (key_to_wire_bytes key ≡ some wire)
    × (key_from_wire_bytes (wire ++ tail) ≡ ok (key, length wire))
unfolding key_well_formed
key_wire-roundtrip_example = key_wire-roundtrip key tail refl

sig_wire-roundtrip_example :
    (wire : List ℕ) × (sig_to_wire_bytes stripped ≡ some wire)
    × (sig_from_wire_bytes (wire ++ tail) ≡ ok (stripped, length wire))
sig_wire-roundtrip_example = sig_wire-roundtrip stripped tail refl
