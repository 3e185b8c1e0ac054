-- ===== src/Validators.antt =====
-- The package validators: the checks that come with the framework. What a check reads from the
-- runtime (the time, the number of goroutines, the memory in use) is an argument.
pub mod Counters
pub mod Recursion
pub mod Timing
pub mod Resources
pub mod Composite
pub mod Loops
pub mod Names
