-- ===== src/Validation.antt =====
-- internal/runner/config_validation.go and operation_validation.go: what the runner accepts as its
-- configuration, in the modules below.
pub mod Rate
pub mod RateAccepts
pub mod ProfileAccepts
pub mod Headers
pub mod Operation
pub mod Config
pub mod Sound
