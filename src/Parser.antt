-- ===== src/Parser.antt =====
-- internal/parser
pub mod Node
pub mod Result
pub mod Traversal
pub mod Protobuf
pub mod Convert
