-- ===== src/Projects.antt =====
-- The preparation of project directories: src/project_preparation.rs, src/project_checkout.rs,
-- src/baijimu_cli.rs and src/json_compat.rs.
pub mod Device
pub mod Checkout
pub mod CheckingOut
pub mod Preparation
