-- ===== src/Auth/Reports.antt =====
-- Register, Login and Refresh of internal/services/auth/auth.go call for call.
pub mod Registration
pub mod Login
pub mod Refresh
