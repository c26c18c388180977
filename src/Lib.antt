-- ===== src/Lib.antt =====
-- The consensus core, the spot markets and the bridge of ACE chain, and the theorems about them.
--
-- The program. Validators with stakes agree on blocks, height by height. In each round of a height
-- the proposer that the seed elects sends a block; the validators prevote, lock, and precommit; two
-- thirds of the stake in precommits commit the block. A committed block becomes final once a proof of
-- it is verified, and is rolled back if none comes in time. Epochs of blocks pay rewards.
--
-- How the parts interact. The engine verifies a vote's signature (SigAlgo) against the validator set
-- (Validators) and hands it, with the voter's stake, to the round state machine (Tendermint), which
-- counts it in one of two collectors (Vote), asks for a quorum (Quorum), and returns an action to
-- broadcast. A timer (RoundTimer) tells when to hand in a timeout, the schedule (Leader) who proposes,
-- the log (Wal) what was locked before a crash. The state machine of a block's finality (Finality) and
-- its deadlines (Timeout) take over from there.
--
-- Beside the consensus stand the spot markets. A market (Liquid) keeps its users' collateral, matches
-- orders against the resting ones of its book and settles them there; a deposit or a withdrawal moves
-- tokens of the ledger (Vm/Token) between a user and the market's account. A transaction's payload says
-- which of these to do, and counts its sender's nonce (Liquid/Wire, Liquid/Execute).
--
-- The bridge (Defi) stands on the same ledger. A deposit of an external asset that a relayer signs is
-- checked against limits (Risk), recorded in the reserves (Reserve) and minted as the canonical asset
-- that it is mapped to (Canonical, Deposit); a withdrawal burns that asset and reserves what will be
-- paid out, and a relayer's report of the payment settles it (Withdraw). The pools of two tokens (Swap)
-- keep their reserves in accounts of that ledger too.
--
-- The files, with the code that each models:
--   Common, Common/*           words of 32 and 64 bits with their wrap-around and saturation, bytes,
--                              Boolean tests, lists over native numbers, association lists
--   Runtime/Quorum             ace-runtime/src/config.rs: has_quorum
--   Runtime/SigAlgo            ace-runtime/src/crypto/sig_algo.rs: tagged keys, verify_signature
--   Runtime/Finality           ace-runtime/src/types/finality.rs, ace-runtime/src/consensus/finality.rs:
--                              FinalityStateMachine, its events and actions
--   Runtime/Timeout            ace-runtime/src/consensus/timeout.rs: TimeoutProtocol,
--                              WitnessAvailability
--   Consensus/Validators       ace-consensus/src/validator_set.rs: ValidatorSet and its operations
--   Consensus/Vote             ace-consensus/src/vote.rs: Vote, VoteCollector (adding votes)
--   Consensus/Vote/Quorum      the same file: what a collector reports, and reconciliation
--   Consensus/Vote/Signing     the same file: the bytes that a vote's signature covers
--   Consensus/Tendermint       ace-consensus/src/tendermint.rs: TendermintState, new heights and
--                              rounds, on_proposal with the locking rule
--   Consensus/Tendermint/Votes the same file: on_prevote, on_precommit, the timeouts, buffered votes
--   Consensus/Leader           ace-consensus/src/leader_schedule.rs: the two elections
--   Consensus/RoundTimer       ace-consensus/src/round_timer.rs: timeouts per step and round
--   Consensus/Rewards          ace-consensus/src/rewards.rs: epochs, the pool, the distributions
--   Consensus/Rewards/Payout   the same file: RewardEngine::distribute
--   Consensus/Wal              ace-consensus/src/wal.rs: the entries and recover
--   Runtime/SigAlgo/Wire       ace-runtime/src/crypto/sig_algo.rs: to_wire_bytes, from_wire_bytes
--   Consensus/Admission        ace-consensus/src/admission.rs: AdmissionController
--   Consensus/SlotClock        ace-consensus/src/slot_clock.rs: SlotClock
--   Vm/Token                   ace-n-vm/src/token_runtime.rs: mints, balances and allowances
--   Liquid/Types               ace-liquid/src/types.rs and error.rs: markets, orders, trades, errors
--   Liquid/Book                ace-liquid/src/state.rs: the account of a market: balances, counters and
--                              the queues of its price levels
--   Liquid/Critbit             ace-liquid/src/critbit.rs: the price ladders, trees in an arena of nodes
--   Liquid/Match               ace-liquid/src/clob.rs: match_taker and settle_fill
--   Liquid/Clob                the same file: create_market, place_order, cancel_order
--   Liquid/Collateral          the same file: deposit and withdraw
--   Liquid/Wire                ace-liquid/src/wire.rs: the payloads, their decoders and builders
--   Liquid/Execute             the same file: consume_nonce, execute_liquid_tx
--   Defi/Types                 ace-defi/src/error.rs and reserve.rs: the errors and the records of reserves
--   Defi/Assets                ace-defi/src/types.rs: external chains and assets, their labels
--   Defi/Amounts               ace-defi/src/canonical.rs: normalize_amount
--   Defi/Risk                  ace-defi/src/risk.rs: RiskConfig and the daily limits
--   Defi/Reserve               ace-defi/src/reserve.rs: ReserveAccounting
--   Defi/Canonical             ace-defi/src/canonical.rs: CanonicalAssetRegistry; the state of the bridge
--   Defi/Deposit               ace-defi/src/deposit.rs: process_deposit_to_oasset and its mark
--   Defi/Withdraw              ace-defi/src/withdraw.rs and wire.rs: request_oasset_withdrawal,
--                              complete_indexed_withdrawal
--   Defi/Swap                  ace-defi/src/swap.rs: SwapEngine, its pools, swaps and quotes
--   Defi/Swap/Liquidity        the same file: add_liquidity, remove_liquidity
--   Defi/Swap/Root             the same file: isqrt
-- The other files below these prove theorems, and the modules named Tests hold runs and examples.
--
-- The model. A record stands for each struct, with its fields; a method that changes `self` returns
-- the new record. A hash and an `AccountId` are the number that their 32 bytes spell, most significant
-- byte first, so the order of the bytes is the order of the numbers. A `HashMap` is an association
-- list with one entry per key; the order of iteration shows in the order of lists of votes only. A `+`
-- on machine words wraps, as in a release build, and a saturating operation saturates. The clock is an
-- argument, in milliseconds.
--
-- Fuel. The rejection sampling of an election has no bound in the code; the model takes one as fuel,
-- and returns nothing where no value within it lies below the threshold. The matching loop of an order
-- has as fuel one more than the order's quantity, since on a valid book each fill takes at least one
-- from it; running out of fuel is a result of its own, out_of_fuel.
-- The walks of a ladder have 65 nodes as fuel, as many as lie on a path of a tree of words; a walk that
-- exceeds them leaves the ladder as it was, and finds no best price.
-- The loop of isqrt has the number itself as fuel, above which its estimate never is.
--
-- Parameters. SHA-256 and the verifiers of the four signature algorithms are the fields of the record
-- Crypto, the verifier of proofs is the record ProofVerifier. The price ladder of a market
-- is the interface PriceLadder, which Liquid/Critbit fills; what is shown of the markets holds for
-- whatever ladder fills it. The identifier of a market and its account, hashes in
-- the code, are arguments. The bridge takes the hashes of its identifiers as the record Hashes, and the
-- checks of a relayer's signature as arguments. All that the bridge keeps stands in the storage of one
-- account, in slots named by hashes, except the mark of a processed deposit, whose slot is the deposit's
-- identifier itself; Hashes also tells which slots are in use, and what a mark in one of them destroys.
-- Commit certificates reach the round state machine verified, and a restored lock as it was logged.
--
-- Not modelled: logging, metrics, serialization and files; the wrapped assets, the intents and the
-- settlement across machines of ace-defi, which compose the bridge and the pools; the mempool, the contract machines, the
-- network, the node and the wallets, which are crates of their own.
pub mod Common
pub mod Runtime
pub mod Consensus
pub mod Vm
pub mod Liquid
pub mod Defi
