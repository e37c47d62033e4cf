-- ===== src/Auth.antt =====
-- internal/auth: who may do what on which stream, how a bearer credential is verified, and the token file.
pub mod Pattern
pub mod Role
pub mod Principal
pub mod Registry
pub mod RoleText
pub mod Globs
pub mod Grants
pub mod Verified
pub mod TokenFile
pub mod Admitted
mod Examples
