-- ===== src/Scheduler.antt =====
-- internal/runner/scheduler.go, scheduler_execution.go and weighted_picker.go, in the modules below.
pub mod Picker
pub mod Slot
pub mod Fallback
pub mod State
pub mod Creates
pub mod Run
pub mod Paced
pub mod Iteration
pub mod Starts
mod Tests
mod StartTests
