-- ===== src/Consensus/Rewards/Epochs.antt =====
-- ace-consensus/src/rewards.rs: the tracker's place in the sequence of blocks.
use ace_chain.Common.{
  ℕ, ◌+◌, ◌*◌, ◌≤◌, ◌<◌, ◌≡◌, refl, none, some, List, [], ◌∷◌, arith, length, u64_mod, ◌⊎◌, inl,
  inr, Bool-cases, leb, add64,
}
use ace_chain.Consensus.Rewards.{EpochTracker, blocks_per_epoch, on_block}

-- Fewer blocks than an epoch has, and an epoch number with one after it.
abbrev pub IsWithin : EpochTracker → Type 0
IsWithin t = (t.blocks_in_epoch < blocks_per_epoch) × (t.current_epoch + 1 < u64_mod)

-- The number of blocks since the first of epoch 0.
abbrev pub position : EpochTracker → ℕ
position t = t.current_epoch * blocks_per_epoch + t.blocks_in_epoch

-- While the epoch number and the transactions of an epoch fit 64 bits, a block moves the
-- tracker's place on by one. The last block of an epoch returns the epoch that it completes,
-- whose transactions, this block's included, become the last epoch's count; any other returns
-- nothing and stays in the epoch.
pub on_block_lem :
    (t : EpochTracker) (txs : ℕ)
    → IsWithin t
    → t.epoch_tx_count + txs < u64_mod
    → (position (on_block t txs).0 ≡ position t + 1)
      × ((on_block t txs).0.blocks_in_epoch < blocks_per_epoch)
      × (((t.blocks_in_epoch + 1 ≡ blocks_per_epoch)
            × ((on_block t txs).1 ≡ some t.current_epoch)
            × ((on_block t txs).0.last_epoch_tx_count ≡ t.epoch_tx_count + txs)
            × ((on_block t txs).0.epoch_tx_count ≡ 0))
          ⊎ ((t.blocks_in_epoch + 1 < blocks_per_epoch)
              × ((on_block t txs).1 ≡ none)
              × ((on_block t txs).0.last_epoch_tx_count ≡ t.last_epoch_tx_count)
              × ((on_block t txs).0.epoch_tx_count ≡ t.epoch_tx_count + txs)))
unfolding on_block
on_block_lem t txs h small = elim (Bool-cases (leb blocks_per_epoch (add64 t.blocks_in_epoch 1))) [
  | inl e ↦ rw e (ground arith, ground arith, inl (ground arith, refl, ground arith, refl))
  | inr e ↦ rw e (ground arith, ground arith, inr (ground arith, refl, refl, ground arith))
]

-- The tracker after a sequence of blocks, given by their numbers of transactions.
unfoldable pub on_blocks : EpochTracker → List ℕ → EpochTracker
on_blocks t [] = t
on_blocks t (n ∷ ns) = on_blocks (on_block t n).0 ns

on_block-position :
    (t : EpochTracker) (n : ℕ)
    → IsWithin t
    → (position (on_block t n).0 ≡ position t + 1)
      × ((on_block t n).0.blocks_in_epoch < blocks_per_epoch)
      × ((on_block t n).0.current_epoch ≤ t.current_epoch + 1)
unfolding on_block
on_block-position t n h = ground arith

-- After any blocks, as long as the epoch number fits 64 bits, a tracker within an epoch stands at
-- its old place and that many blocks further, again within an epoch.
pub on_blocks-position :
    (t : EpochTracker) (txs : List ℕ)
    → t.blocks_in_epoch < blocks_per_epoch
    → t.current_epoch + length txs < u64_mod
    → (position (on_blocks t txs) ≡ position t + length txs)
      × ((on_blocks t txs).blocks_in_epoch < blocks_per_epoch)
unfolding on_blocks
on_blocks-position t [] p q = (omega arith, p)
on_blocks-position t (n ∷ ns) p q =
    let step = on_block-position t n (p, omega arith) in
    let rest = on_blocks-position (on_block t n).0 ns (step.1) (omega (arith, step.2)) in
    (omega (arith, step.0, rest.0), rest.1)
