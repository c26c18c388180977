-- ===== src/Runtime.antt =====
-- ace-runtime: what the consensus crate takes from it.
pub mod SigAlgo
pub mod Quorum
pub mod Finality
pub mod Timeout
