-- ===== src/Dispatcher.antt =====
-- The package `dispatcher`: the routes of the configured applications, and what a request passes on
-- its way to a backend.
pub mod Behaviours
pub mod Closures
pub mod Options
pub mod Routes
pub mod Consul
pub mod Build
pub mod Access
mod Tests
