-- ===== src/Config.antt =====
-- src/ft_system/common/config.py: the records of a deployment and the checks of single fields.
-- `to_float` stands for `float` of an integer, which may round it, or raise OverflowError.
pub mod Tables
pub mod Deployment
pub mod Valid
pub mod Checked
pub mod Keys
pub mod File
pub mod Told
pub mod Held
pub mod Errors
pub mod Loaded
use Prim.Native.String.{◌++◌}
use fall2026_18749_project.Prelude.{
  ℕ, zero, suc, ◌*◌, ◌^◌, ◌≤◌, ◌≡◌, refl, String, Bool, true, false, not, ◌&&◌, Option, none, some,
  List, [], ◌∷◌, Table, find, leb, arith, if◌then◌else◌,
}
use fall2026_18749_project.Text.{is_blank}
use fall2026_18749_project.Value.{
  ℤ, pos, negsuc, leb_ℤ, scale, Float, finite, infinity, minus_infinity, nan, Value, none_value,
  bool, int, float, str, list, dict, Items, nil, cons, Fields, empty, entry, lookup, get,
}
use fall2026_18749_project.Result.{Result, ok, err, config_error, guard, ◌>>=◌, ◌>>◌}

pub record ServerConfig : Type 0 where
  pub replica_id : String
  pub bind_host : String
  pub advertised_host : String
  pub client_port : ℕ
  pub heartbeat_port : ℕ

pub record ClientConfig : Type 0 where
  pub client_id : String
  pub server_ids : List String
  pub connect_timeout : Float
  pub read_timeout : Float

pub record LfdConfig : Type 0 where
  pub lfd_id : String
  pub server_id : String
  pub heartbeat_freq : Float
  pub connect_timeout : Float
  pub read_timeout : Float
  pub initial_backoff : Float
  pub max_backoff : Float

pub record GfdConfig : Type 0 where
  pub bind_host : String
  pub advertised_host : String
  pub port : ℕ
  pub heartbeat_freq : Float
  pub read_timeout : Float

pub record AppConfig : Type 0 where
  pub servers : Table ServerConfig
  pub clients : Table ClientConfig
  pub lfds : Table LfdConfig
  pub gfd : Option GfdConfig

-- `d[k]`, with a KeyError told as a ConfigError.
unfoldable pub entry_of {ℓ} : {V : Type ℓ} → Table V → String → String → Result V
entry_of d what k = elim (find d k) [
  | none ↦ err (config_error ("unknown " ++ what ++ " id: " ++ k))
  | some v ↦ ok v
]

unfoldable pub server : AppConfig → String → Result ServerConfig
unfolding entry_of
server c replica_id = entry_of c.servers "server" replica_id

unfoldable pub client : AppConfig → String → Result ClientConfig
unfolding entry_of
client c client_id = entry_of c.clients "client" client_id

unfoldable pub lfd : AppConfig → String → Result LfdConfig
unfolding entry_of
lfd c lfd_id = entry_of c.lfds "LFD" lfd_id

unfoldable pub section : Fields → String → Result Fields
section document name = elim (get document name) [
  | dict (entry k v m) ↦ ok (entry k v m)
  | _ ↦ err (config_error (name ++ " section must be a non-empty table"))
]

unfoldable pub non_empty_string : Value → String → Result String
non_empty_string (str s) field =
    if is_blank s then err (config_error (field ++ " must be a non-empty string")) else ok s
non_empty_string _ field = err (config_error (field ++ " must be a non-empty string"))

unfoldable pub port_of : Value → String → Result ℕ
port_of (int (pos n)) field =
    if leb 1 n && leb n 65535
    then ok n
    else err (config_error (field ++ " must be an integer from 1 to 65535"))
port_of _ field = err (config_error (field ++ " must be an integer from 1 to 65535"))

-- `math.isfinite(x) and not x <= 0`
unfoldable pub is_positive : Float → Bool
is_positive (finite (pos (suc n)) k) = true
is_positive _ = false

unfoldable pub positive_number : (ℤ → Result Float) → Value → String → Result Float
positive_number to_float (int i) field = do
  x ← to_float i
  guard (leb_ℤ (pos 1) i) (config_error (field ++ " must be positive"))
  ok x
positive_number to_float (float x) field =
    if is_positive x then ok x else err (config_error (field ++ " must be positive"))
positive_number to_float _ field = err (config_error (field ++ " must be positive"))

unfoldable pub required : Fields → String → String → Result Value
required table field component = elim (lookup table field) [
  | none ↦ err (config_error (component ++ " is missing " ++ field))
  | some v ↦ ok v
]

-- `table.get(field, default)`
unfoldable pub get_default : Fields → String → Value → Value
get_default table field default = elim (lookup table field) [ none ↦ default | some v ↦ v ]

-- `x <= y`
unfoldable pub leb_float : Float → Float → Bool
leb_float nan y = false
leb_float x nan = false
leb_float minus_infinity y = true
leb_float x infinity = true
leb_float infinity y = false
leb_float x minus_infinity = false
leb_float (finite m k) (finite n j) = leb_ℤ (scale m (2 ^ j)) (scale n (2 ^ k))
