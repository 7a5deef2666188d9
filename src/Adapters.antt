-- ===== src/Adapters.antt =====
-- packages/state/src/adapters: the lines that each agent's adapter keeps for the rules. Their
-- regular expressions are those of Patterns, or are read by hand where a group of them is used.
pub mod Claude
pub mod Codex
pub mod Hermes
pub mod Shell
