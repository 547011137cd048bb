-- ===== src/Llm.antt =====
-- backend/app/integrations/llm: the two providers and the gateway over them.
pub mod Http
pub mod Gemini
pub mod Nemotron
pub mod Gateway
mod Tests
