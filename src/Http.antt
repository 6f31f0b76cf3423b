-- ===== src/Http.antt =====
-- internal/transport/http: the buffering response writer of middleware.go (Writer), the middleware
-- that server.go puts round the router (Middleware), metrics.go (Metrics), what the handlers share
-- (Api), the handlers (Handlers), the table of routes (Routes) and the configuration of the server
-- (Settings).
pub mod Writer
pub mod Metrics
pub mod Middleware
pub mod Api
pub mod Handlers
pub mod Routes
pub mod Settings
