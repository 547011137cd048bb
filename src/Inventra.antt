-- ===== src/Inventra.antt =====
-- backend/app/integrations/inventra: the client of the inventory service.
pub mod Schemas
pub mod Errors
pub mod Env
pub mod Client
