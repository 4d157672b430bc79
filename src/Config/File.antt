-- ===== src/Config/File.antt =====
-- src/ft_system/common/config.py: `load_config` from the path on. What `open` and `tomllib.load` make
-- of the file is an argument; `tomllib.load` also decodes the file, which may raise UnicodeDecodeError.
use Prim.Native.String.{◌++◌}
use fall2026_18749_project.Prelude.{String}
use fall2026_18749_project.Value.{ℤ, Float, Fields}
use fall2026_18749_project.Result.{Result, ok, err, config_error, value_error, ◌>>=◌}
use fall2026_18749_project.Config.{AppConfig}
use fall2026_18749_project.Config.Deployment.{load_config}

-- `unreadable` is an OSError, `bad_toml` a TOMLDecodeError, `undecodable` a UnicodeDecodeError.
pub data Opened : Type 0 where
  parsed : Fields → Opened
  unreadable bad_toml undecodable : (message : String) → Opened

unfoldable pub read_config : String → Opened → Result Fields
read_config path (parsed data_of) = ok data_of
read_config path (unreadable message) =
    err (config_error ("cannot read configuration " ++ path ++ ": " ++ message))
read_config path (bad_toml message) =
    err (config_error ("invalid TOML in " ++ path ++ ": " ++ message))
read_config path (undecodable message) = err (value_error message)

unfoldable pub load_file : (ℤ → Result Float) → String → Opened → Result AppConfig
load_file to_float path opened = read_config path opened >>= load_config to_float
