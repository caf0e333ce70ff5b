-- ===== src/Regex.antt =====
-- The regular expressions of `grep`: include/common/regexpostfix.h.
pub mod Postfix
pub mod Convert
pub mod Nfa
pub mod Dfa
pub mod Pattern
