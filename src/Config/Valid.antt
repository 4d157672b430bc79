-- ===== src/Config/Valid.antt =====
-- What a valid table of src/ft_system/common/config.py is, and what the checks of single fields let
-- pass.
use fall2026_18749_project.Prelude.{
  ℕ, zero, suc, ◌≤◌, ◌≡◌, ◌≢◌, ◌⊎◌, String, true, false, [], arith,
}
use fall2026_18749_project.Text.{is_blank}
use fall2026_18749_project.Value.{
  ℤ, pos, negsuc, Float, Value, none_value, bool, int, float, str, list, dict,
}
use fall2026_18749_project.Result.{Result, ok, err, overflow_error, after_bind}
use fall2026_18749_project.StateMachine.{distinct}
use fall2026_18749_project.Config.{
  ServerConfig, ClientConfig, LfdConfig, GfdConfig, non_empty_string, port_of, is_positive,
  positive_number, leb_float,
}

-- `to_float` gives a positive float for a positive integer, where it gives one.
abbrev pub KeepsSign : (ℤ → Result Float) → Type 0
KeepsSign to_float = (n : ℕ) (x : Float) → to_float (pos (suc n)) ≡ ok x → is_positive x ≡ true

-- `float(i)` returns, or `i` is too large and it raises OverflowError.
abbrev pub OnlyOverflows : (ℤ → Result Float) → Type 0
OnlyOverflows to_float =
    (i : ℤ) → ((x : Float) × (to_float i ≡ ok x)) ⊎ (to_float i ≡ err overflow_error)

abbrev pub IsPort : ℕ → Type 0
IsPort n = (1 ≤ n) × (n ≤ 65535)

pub record IsServer (k : String) (s : ServerConfig) : Type 0 where
  pub key : s.replica_id ≡ k
  pub named : is_blank k ≡ false
  pub bind_host : is_blank s.bind_host ≡ false
  pub advertised_host : is_blank s.advertised_host ≡ false
  pub client_port : IsPort s.client_port
  pub heartbeat_port : IsPort s.heartbeat_port
  pub distinct_ports : s.client_port ≢ s.heartbeat_port

pub record IsClient (k : String) (c : ClientConfig) : Type 0 where
  pub key : c.client_id ≡ k
  pub named : is_blank k ≡ false
  pub some_server : c.server_ids ≢ []
  pub unique_servers : distinct c.server_ids ≡ true
  pub connect_timeout : is_positive c.connect_timeout ≡ true
  pub read_timeout : is_positive c.read_timeout ≡ true

pub record IsDetector (k : String) (l : LfdConfig) : Type 0 where
  pub key : l.lfd_id ≡ k
  pub named : is_blank k ≡ false
  pub heartbeat_freq : is_positive l.heartbeat_freq ≡ true
  pub connect_timeout : is_positive l.connect_timeout ≡ true
  pub read_timeout : is_positive l.read_timeout ≡ true
  pub initial_backoff : is_positive l.initial_backoff ≡ true
  pub max_backoff : is_positive l.max_backoff ≡ true
  pub ordered : leb_float l.initial_backoff l.max_backoff ≡ true

pub record IsGfd (g : GfdConfig) : Type 0 where
  pub bind_host : is_blank g.bind_host ≡ false
  pub advertised_host : is_blank g.advertised_host ≡ false
  pub port : IsPort g.port
  pub heartbeat_freq : is_positive g.heartbeat_freq ≡ true
  pub read_timeout : is_positive g.read_timeout ≡ true

pub non_empty_string-eq-ok :
    (v : Value) (field s : String)
    → non_empty_string v field ≡ ok s
    → (v ≡ str s) × (is_blank s ≡ false)
unfolding non_empty_string
non_empty_string-eq-ok (str t) field s h = ground arith
non_empty_string-eq-ok none_value field s h = cc
non_empty_string-eq-ok (bool b) field s h = cc
non_empty_string-eq-ok (int i) field s h = cc
non_empty_string-eq-ok (float x) field s h = cc
non_empty_string-eq-ok (list xs) field s h = cc
non_empty_string-eq-ok (dict m) field s h = cc

pub port_of-eq-ok : (v : Value) (field : String) (n : ℕ) → port_of v field ≡ ok n → IsPort n
unfolding port_of
port_of-eq-ok (int (pos m)) field n h = ground arith
port_of-eq-ok (int (negsuc m)) field n h = cc
port_of-eq-ok none_value field s h = cc
port_of-eq-ok (bool b) field s h = cc
port_of-eq-ok (str i) field s h = cc
port_of-eq-ok (float x) field s h = cc
port_of-eq-ok (list xs) field s h = cc
port_of-eq-ok (dict m) field s h = cc

module _ (to_float : ℤ → Result Float) (keeps : KeepsSign to_float) where
  pub positive_number-eq-ok :
      (v : Value) (field : String) (x : Float)
      → positive_number to_float v field ≡ ok x
      → is_positive x ≡ true
  unfolding positive_number
  positive_number-eq-ok (int (pos (suc n))) field x h =
      after_bind (to_float (pos (suc n))) _ h (λ y e rest. ground (arith, keeps n y e))
  positive_number-eq-ok (int (pos zero)) field x h =
      after_bind (to_float (pos zero)) _ h (λ y e rest. cc)
  positive_number-eq-ok (int (negsuc n)) field x h =
      after_bind (to_float (negsuc n)) _ h (λ y e rest. cc)
  positive_number-eq-ok (float y) field x h = ground arith
  positive_number-eq-ok none_value field s h = cc
  positive_number-eq-ok (bool b) field s h = cc
  positive_number-eq-ok (str i) field s h = cc
  positive_number-eq-ok (list xs) field s h = cc
  positive_number-eq-ok (dict m) field s h = cc
