-- ===== src/Runtime/Quorum.antt =====
-- ace-runtime/src/config.rs: the quorum test. The products are of 128 bits there, and 3 * 2^64 and
-- 2 * 2^64 fit, so they are plain products here.
use ace_chain.Common.{ℕ, ◌*◌, Bool, false, ◌==◌, leb, if◌then◌else◌}

abbrev pub quorum_numerator : ℕ
quorum_numerator = 2

abbrev pub quorum_denominator : ℕ
quorum_denominator = 3

unfoldable pub has_quorum : ℕ → ℕ → Bool
has_quorum votes total_stake =
    if total_stake == 0
    then false
    else leb (quorum_numerator * total_stake) (votes * quorum_denominator)
