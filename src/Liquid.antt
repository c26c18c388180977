-- ===== src/Liquid.antt =====
-- ace-liquid: the spot markets of a central limit order book, with the collateral of their users.
pub mod Types
pub mod Book
pub mod Critbit
pub mod Links
pub mod Queues
pub mod Funds
pub mod Invariant
pub mod Match
pub mod Fills
pub mod Filling
pub mod Matching
pub mod Clob
pub mod Placing
pub mod Counters
pub mod Placed
pub mod Cancelling
pub mod Collateral
pub mod Custody
pub mod Withdrawing
pub mod Wire
pub mod Execute
pub mod Run
mod Tests
