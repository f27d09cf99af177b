-- ===== src/Packages.antt =====
-- Packages and archives: kernel/src/pkg.rs, inflate.rs and zip.rs.
pub mod Pkg
pub mod Inflate
pub mod Zip
