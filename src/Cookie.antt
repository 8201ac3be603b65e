-- ===== src/Cookie.antt =====
-- Cookies: src/cookie/store.rs and src/cookie/jar.rs.
pub mod Host
pub mod Path
pub mod Raw
pub mod Scope
pub mod Store
pub mod Jar
mod Tests
