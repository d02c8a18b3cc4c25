-- ===== src/Cc.antt =====
-- RULES/cc: the rules for C and C++.
pub mod Toolchain
pub mod Library
pub mod Collect
pub mod Object
pub mod Build
