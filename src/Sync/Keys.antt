-- ===== src/Sync/Keys.antt =====
-- The object keys of backend/internal/sync/engine.go. `filepath.ToSlash` changes nothing where the
-- separator is a slash, as on the systems that the program is built for.
pub mod Laws
use dropboy.Base.{Text, codes, trim_prefix, ◌++◌}

unfoldable pub key_prefix : Text → Text
key_prefix machine_id = codes "dropboy/v1/" ++ (machine_id ++ codes "/")

unfoldable pub key_for : Text → Text → Text
unfolding trim_prefix
key_for machine_id abs_path = key_prefix machine_id ++ trim_prefix abs_path (codes "/")

unfoldable pub path_from_key : Text → Text → Text
unfolding trim_prefix
path_from_key key machine_id = codes "/" ++ trim_prefix key (key_prefix machine_id)
