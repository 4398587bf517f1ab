-- ===== src/Vm.antt =====
-- src/services/new/vm/vm-runner.ts: the contract VM, seen through the system calls of a contract.
pub mod State
pub mod Runner
pub mod Atomicity
pub mod Balance
pub mod Reading
mod Tests
