-- ===== src/Examples/Names.antt =====
-- Splitting and joining names at concrete names.
use conc_ir.Prelude.{◌≡◌, refl, true, none, some}
use conc_ir.Prelude.Text.{ascii}
use conc_ir.Names.{is_ident, fqn, split_fqn, location, rsplit_once, split_location, qualify}
use conc_ir.Names.RoundTrip.{
  split_fqn-fqn, split_fqn_sound, split_location-location, qualify-qualify,
}

ident_storage : is_ident (ascii "storage") ≡ true
unfolding is_ident
ident_storage = refl

ident_log : is_ident (ascii "log_mtx") ≡ true
unfolding is_ident
ident_log = refl

split_fqn-fqn_example :
    split_fqn (fqn (ascii "storage") (ascii "log_mtx")) ≡ some (ascii "storage", ascii "log_mtx")
split_fqn-fqn_example = split_fqn-fqn (ascii "storage") (ascii "log_mtx") ident_storage ident_log

splits : split_fqn (ascii "storage::log_mtx") ≡ some (ascii "storage", ascii "log_mtx")
unfolding split_fqn
splits = refl

split_fqn_sound_example :
    (ascii "storage::log_mtx" ≡ fqn (ascii "storage") (ascii "log_mtx"))
    × (is_ident (ascii "storage") ≡ true)
    × (is_ident (ascii "log_mtx") ≡ true)
split_fqn_sound_example =
    split_fqn_sound (ascii "storage::log_mtx") (ascii "storage") (ascii "log_mtx") splits

no_dot : rsplit_once (ascii "s3") ≡ none
unfolding rsplit_once
no_dot = refl

split_location-location_example :
    split_location (location (ascii "storage") (ascii "log_mtx") (ascii "s3"))
    ≡ some (ascii "storage", ascii "log_mtx", ascii "s3")
split_location-location_example =
    split_location-location (ascii "storage") (ascii "log_mtx") (ascii "s3") ident_storage ident_log
      refl no_dot

qualify-qualify_example :
    (qualify (ascii "storage") (ascii "log_mtx") ≡ fqn (ascii "storage") (ascii "log_mtx"))
    × (qualify (ascii "core") (qualify (ascii "storage") (ascii "log_mtx"))
        ≡ qualify (ascii "storage") (ascii "log_mtx"))
qualify-qualify_example =
    qualify-qualify (ascii "storage") (ascii "core") (ascii "log_mtx") ident_storage ident_log
