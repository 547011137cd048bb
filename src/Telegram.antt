-- ===== src/Telegram.antt =====
-- The Telegram channel: backend/app/integrations/telegram, backend/app/api/telegram_deps.py,
-- backend/app/api/services/telegram_service.py and backend/app/api/routes/telegram.py.
pub mod Schemas
pub mod Client
pub mod Service
pub mod Webhook
mod Tests
