-- ===== src/Reporter.antt =====
-- reporter.go: the results that a run accumulates, and the reports drawn from them.
pub mod Names
pub mod Orders
pub mod Sorting
pub mod Failures
pub mod Analysis
pub mod Judge
pub mod Printing
pub mod Json
pub mod Junit
