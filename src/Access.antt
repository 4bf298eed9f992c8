-- ===== src/Access.antt =====
-- secrets/access: who may read and write which secrets.
pub mod Certificate
pub mod Delegate
pub mod Validity
pub mod Acl
pub mod Trust
mod Rows
pub mod Load
pub mod Total
mod Examples
