-- ===== src/Access.antt =====
-- Reads of the fields of a message that validation has checked, `message[k]`, at the type that the
-- program then relies on. Another type there is a TypeError.
use fall2026_18749_project.Prelude.{String, ◌≡◌, Bool, some}
use fall2026_18749_project.Value.{ℤ, Value, bool, int, str, dict, Fields, lookup}
use fall2026_18749_project.Result.{Result, ok, err, type_error, ◌>>=◌}
use fall2026_18749_project.Protocol.Validate.{item, item-lookup}

-- A value that is used as a text or as a number. A field that validation has checked is one.
unfoldable pub as_text : Value → Result String
as_text (str s) = ok s
as_text _ = err type_error

unfoldable pub as_number : Value → Result ℤ
as_number (int i) = ok i
as_number _ = err type_error

unfoldable pub as_mapping : Value → Result Fields
as_mapping (dict m) = ok m
as_mapping _ = err type_error

unfoldable pub text_item : Fields → String → Result String
text_item m k = do v ← item m k; as_text v

unfoldable pub number_item : Fields → String → Result ℤ
number_item m k = do v ← item m k; as_number v

-- `message["payload"][k]`
unfoldable pub payload_item : Fields → String → Result Value
payload_item m k = do v ← item m "payload"; p ← as_mapping v; item p k

unfoldable pub as_bool : Value → Result Bool
as_bool (bool b) = ok b
as_bool _ = err type_error

pub text_item-lookup :
    (m : Fields) (k : String) {s : String} → lookup m k ≡ some (str s) → text_item m k ≡ ok s
unfolding text_item as_text
text_item-lookup m k h = rw (item-lookup m k h)

pub number_item-lookup :
    (m : Fields) (k : String) {i : ℤ} → lookup m k ≡ some (int i) → number_item m k ≡ ok i
unfolding number_item as_number
number_item-lookup m k h = rw (item-lookup m k h)

pub payload_item-lookup :
    (m p : Fields) (k : String) {v : Value}
    → lookup m "payload" ≡ some (dict p)
    → lookup p k ≡ some v
    → payload_item m k ≡ ok v
unfolding payload_item as_mapping
payload_item-lookup m p k h e = simp (item-lookup m "payload" h, item-lookup p k e)
