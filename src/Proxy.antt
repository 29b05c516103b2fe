-- ===== src/Proxy.antt =====
-- The package `proxy`: the rewriter of links in responses, and the handler that talks to a backend.
pub mod Json
pub mod Rewriter
pub mod Upstream
