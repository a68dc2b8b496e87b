-- ===== src/Spec.antt =====
-- extensions-controller/api/v1alpha1: the specs of VastStorageClassReplication and
-- VastVolumeReplication. The fields that no modelled code reads are left out of the records.
pub mod Types
pub mod Durations
pub mod Templates
pub mod Classes
pub mod Validation
