-- ===== src/Uci.antt =====
-- The UCI bridge (internal/services/uci_bridge.go): quoting and the command lines in Commands, the
-- rendering of a command in Translate, MAC lists in Macs and MacSets, a shell's reading of a line in
-- Shell, and the proofs in Plain, Quoting and Lines.
pub mod Commands
pub mod Macs
pub mod Translate
pub mod MacSets
pub mod Shell
pub mod Quoting
mod Plain
pub mod Lines
