-- ===== src/Realtime.antt =====
-- The realtime transport: backend/app/api/v1/websockets.py and backend/app/core/pubsub.py.
pub mod Integer
pub mod Limiter
pub mod Connections
pub mod Tickets
pub mod Admission
mod Tests
