-- ===== src/Agreement.antt =====
-- agreements.go: permissions, grants, conditions and agreements.
pub mod Permissions
pub mod Grant
pub mod Condition
