-- ===== src/Examples.antt =====
-- Concrete inputs of the theorems, by part.
mod Schema
mod Policies
mod Requests
mod Tokens
mod Access
mod Limits
mod Replicas
mod Hooks
mod Ddl
