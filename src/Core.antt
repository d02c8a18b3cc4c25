-- ===== src/Core.antt =====
-- RULES/core: the generator behind every rule package.
pub mod Input
pub mod Path
pub mod Step
pub mod Context
pub mod Ninja
pub mod Target
pub mod Flags
pub mod Template
pub mod Rules
pub mod Main
