-- ===== src/Http/Handlers.antt =====
-- internal/transport/http/handlers.go: the handlers of tokens (Tokens), of accounts (Accounts), and
-- what they do to the stored rows (Rows).
pub mod Tokens
pub mod Accounts
pub mod Rows
