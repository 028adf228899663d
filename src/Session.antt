-- ===== src/Session.antt =====
-- aoe/session: the sessions with an exchange.
pub mod WebSocket
