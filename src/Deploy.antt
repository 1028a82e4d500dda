-- ===== src/Deploy.antt =====
-- internal/deploy: deleting the files of deactivated packages in bulk, synchronizing the packages
-- with the object store, and the local builds.
pub mod Bulk
pub mod Sync
pub mod Local
