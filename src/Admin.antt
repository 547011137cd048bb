-- ===== src/Admin.antt =====
-- The admin API: backend/app/api/admin_deps.py and backend/app/api/routes.
pub mod Auth
pub mod Proxy
mod Tests
