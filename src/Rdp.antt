-- ===== src/Rdp.antt =====
-- crates/drift-rdp: the session with the host.
pub mod Resize
pub mod Redirect
pub mod Greeter
pub mod Fastpath
pub mod Certificates
pub mod Actor
