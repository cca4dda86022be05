-- ===== src/Explore/Verdict/Total.antt =====
-- The checks of src/explore/mod.rs on a finished search do not panic, and `verify` ends with a report.
use conc_ir.Prelude.{◌≡◌}
use conc_ir.Prelude.Map.{list_key, nat_key}
use conc_ir.Sem.Outcome.{Result, ok, Outcome}
use conc_ir.Explore.Search.{Search}

abbrev Succeeds : {A : Type 0} → Result A → Type 0
Succeeds {A} m = (a : A) × (m ≡ ok a)
