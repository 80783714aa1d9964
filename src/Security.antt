-- ===== src/Security.antt =====
-- `SecurityTokenParser` of src/parser/security_parser.rs: users, roles and permissions.
pub mod Gap
pub mod User
pub mod Role
pub mod Permission
