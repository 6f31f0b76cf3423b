-- ===== src/Postgres.antt =====
-- internal/db/postgres: the retry loop, the error tests and the settings of the pool of postgres.go,
-- and the repositories over the parameter `Database` (the pgx pool with the server behind it).
pub mod Errors
pub mod Retry
pub mod Database
pub mod Pool
pub mod ShortenerRepo
pub mod AuthRepo
