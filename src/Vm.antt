-- ===== src/Vm.antt =====
-- ace-n-vm: the runtime's token ledger.
pub mod Token
