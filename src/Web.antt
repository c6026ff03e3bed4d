-- ===== src/Web.antt =====
-- The web server of src/web: the handler of static files.
pub mod StaticFiles
pub mod Router
pub mod Socket
pub mod Json
pub mod HttpSession
