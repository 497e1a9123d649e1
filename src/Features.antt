-- ===== src/Features.antt =====
-- The features of src/features.
pub mod Templates
pub mod Lookup
pub mod Window
pub mod Words
pub mod Casing
pub mod Certainty
pub mod Detector
pub mod Clusters
pub mod Containers
pub mod Gazetteers
pub mod ListedGazetteers
pub mod Instances
