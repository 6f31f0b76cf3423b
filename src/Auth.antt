-- ===== src/Auth.antt =====
-- internal/services/auth: types and interfaces (Types), the tokens of jwt.go (Jwt), the methods of
-- auth.go (Service), what they rely on (Interface, Accounts) and what they guarantee (Sessions, Access,
-- Login), over sequences of calls too (Requests).
pub mod Types
pub mod Jwt
pub mod Reports
pub mod Service
pub mod Interface
pub mod Accounts
pub mod Sessions
pub mod Access
pub mod Login
pub mod Requests
pub mod Frame
pub mod Evolution
pub mod Lasting
