-- ===== src/Rules.antt =====
-- pkg/rules: the built-in rules.
pub mod Mutation
pub mod Insert
pub mod Ddl
pub mod Builtin
pub mod Exact
pub mod Guarantee
