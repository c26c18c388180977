-- ===== src/Defi.antt =====
-- ace-defi/src: pools of two tokens, and the bridge's canonical assets with the reserves behind them.
pub mod Types
pub mod Ledger
pub mod Assets
pub mod Amounts
pub mod Risk
pub mod Canonical
pub mod Deposit
pub mod Withdraw
pub mod Solvent
pub mod Swap
mod Tests
pub mod Reserve
