-- ===== src/Service.antt =====
-- main.go and pkg/factory/factory.go: the start of the service, and how its parts are wired.
pub mod Wiring
pub mod Startup
pub mod Scope
pub mod Router
pub mod Routes
pub mod Requests
pub mod Lifetime
pub mod Delivered
pub mod Loop
pub mod Held
pub mod Progress
pub mod Interleaving
