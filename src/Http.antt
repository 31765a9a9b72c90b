-- ===== src/Http.antt =====
-- src/http: the cookies that carry credentials, and the middleware that resolves them.
pub mod Cookies
pub mod Middleware
pub mod Resolving
mod Plain
mod Visible
mod Lines
mod Pairs
mod Tests
