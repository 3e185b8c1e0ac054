-- ===== src/Injectors.antt =====
-- The package injectors: the injectors that need nothing but a random generator, the composite,
-- and those of the network.
pub mod Chance
pub mod Composite
pub mod Client
pub mod Toxics
pub mod Proxies
pub mod Contextual
pub mod Delay
pub mod Cancellation
pub mod Monkey
pub mod Patches
