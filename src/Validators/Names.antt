-- ===== src/Validators/Names.antt =====
-- The names of the validators of the package, as the reporter reads them.
use chaoskit.Prelude.{List}
use chaoskit.Thresholds
