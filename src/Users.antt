-- ===== src/Users.antt =====
-- internal/users: people, their roles and their sessions (user.go, session.go).
pub mod Sessions
