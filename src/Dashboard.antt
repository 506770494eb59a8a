-- ===== src/Dashboard.antt =====
-- Who may do what on the platform and on an app: internal/dashboard.
pub mod Roles
pub mod Members
