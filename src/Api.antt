-- ===== src/Api.antt =====
-- api/v1: the custom resources, their states and their condition lists.
pub mod State
pub mod Conditions
pub mod Container
pub mod Features
pub mod Store
pub mod Environment
