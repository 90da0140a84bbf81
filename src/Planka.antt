-- ===== src/Planka.antt =====
-- internal/provision/planka: the provisioner for Planka's database.
pub mod Roles
pub mod Database
pub mod Users
pub mod Check
pub mod Connected
