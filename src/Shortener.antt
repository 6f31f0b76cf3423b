-- ===== src/Shortener.antt =====
-- internal/services/shortener: the service of shortener.go over its interfaces (Types), a method to
-- an action of Service. Interface says what the dependencies promise; Create, Resolve, Delete and
-- Coherence say what the methods then guarantee, Requests is about sequences of calls,
-- Threads about calls that run at the same time.
pub mod CacheTtl
pub mod Types
pub mod Reports
pub mod Service
pub mod Interface
pub mod Coherence
pub mod Create
pub mod Resolve
pub mod Delete
pub mod Requests
pub mod Ownership
pub mod Owned
pub mod RoundTrip
pub mod Race
pub mod Threads
