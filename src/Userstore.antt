-- ===== src/Userstore.antt =====
-- internal/userstore: the safe editing of Authelia's users_database.yml.
pub mod Types
pub mod Names
pub mod Nodes
pub mod Snapshot
pub mod Edits
pub mod Disk
pub mod Mutate
pub mod Store
pub mod Hash
