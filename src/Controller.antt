-- ===== src/Controller.antt =====
-- extensions-controller/internal/controller.
pub mod KeyLocker
pub mod Content
pub mod OwnerRefs
pub mod Remap
pub mod Objects
