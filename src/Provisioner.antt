-- ===== src/Provisioner.antt =====
-- The provisioner, which turns an app's schema into DDL: internal/provisioner.
pub mod Topsort
pub mod Types
pub mod Policy
pub mod Ddl
pub mod Columns
pub mod Table
pub mod Migration
pub mod Constraints
pub mod ForeignKeys
pub mod EnumValues
pub mod Schema
pub mod Apply
