-- ===== src/Auth.antt =====
-- Sessions by tokens: backend/app/core/security.py, and the routes of backend/app/api/v1/auth.py.
pub mod Tokens
pub mod Replies
pub mod Login
pub mod Refresh
pub mod Logout
mod Tests
