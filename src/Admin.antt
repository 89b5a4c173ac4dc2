-- ===== src/Admin.antt =====
-- The admin connections: google/cloud/spanner/database_admin_connection.cc and
-- instance_admin_connection.cc.
pub mod Service
pub mod Requests
pub mod Database
pub mod Instance
pub mod Awaiting
mod Examples
