-- ===== src/Api.antt =====
-- app/services/auth.py and app/api: who is calling, and the routes that call the orchestrator for him.
pub mod Auth
pub mod Bindings
pub mod Routes
mod Tests
