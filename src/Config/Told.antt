-- ===== src/Config/Told.antt =====
-- What the tests of single fields of src/ft_system/common/config.py raise, apart from the numbers.
use fall2026_18749_project.Prelude.{
  String, ◌≡◌, refl, Bool, true, false, Option, none, some, List, [], ◌∷◌, Table, if◌then◌else◌,
}
use fall2026_18749_project.Value.{
  pos, Value, none_value, bool, int, float, str, list, dict, Items, nil, cons, Fields, empty, entry,
  get, lookup,
}
use fall2026_18749_project.Result.{Result, ok, err, config_error, overflow_error, guard, ◌>>=◌}
use fall2026_18749_project.Config.{
  ServerConfig, ClientConfig, LfdConfig, section, non_empty_string, port_of, required,
}
use fall2026_18749_project.Config.Tables.{table_of, parse_server, strings_of, server_ids_of}
use fall2026_18749_project.Config.Deployment.{check_ids, check_clients, check_lfds}

-- It returns, it raises a ConfigError, or it raises OverflowError, which is told as `O`.
pub data IsTold (O : Type 0) {A : Type 0} : Result A → Type 0 where
  returns : (a : A) → IsTold O (ok a)
  tells : (message : String) → IsTold O (err (config_error message))
  overflows : O → IsTold O (err overflow_error)

pub bind-IsTold :
    {O : Type 0} {A B : Type 0} (r : Result A) (f : A → Result B)
    → IsTold O r
    → ((a : A) → IsTold O (f a))
    → IsTold O (r >>= f)
bind-IsTold _ f (returns a) h = h a
bind-IsTold _ f (tells m) h = tells m
bind-IsTold _ f (overflows o) h = overflows o

pub guard-IsTold : {O : Type 0} (b : Bool) (m : String) → IsTold O (guard b (config_error m))
guard-IsTold true m = returns tt
guard-IsTold false m = tells m

pub if-IsTold :
    {O : Type 0} {A : Type 0} (b : Bool) (x y : Result A)
    → IsTold O x
    → IsTold O y
    → IsTold O (if b then x else y)
if-IsTold true x y p q = p
if-IsTold false x y p q = q

pub ruleset told_rules = (bind-IsTold, guard-IsTold, if-IsTold, returns, tells)

pub string-IsTold : {O : Type 0} (v : Value) (field : String) → IsTold O (non_empty_string v field)
unfolding non_empty_string
string-IsTold (str s) field = search told_rules
string-IsTold _ field = search told_rules

pub port-IsTold : {O : Type 0} (v : Value) (field : String) → IsTold O (port_of v field)
unfolding port_of
port-IsTold (int (pos n)) field = search told_rules
port-IsTold _ field = search told_rules

pub table-IsTold : {O : Type 0} (v : Value) (component : String) → IsTold O (table_of v component)
unfolding table_of
table-IsTold (dict m) component = search told_rules
table-IsTold _ component = search told_rules

pub option-IsTold :
    {O : Type 0} {A B : Type 0} (o : Option A) (x : Result B) (f : A → Result B)
    → IsTold O x
    → ((a : A) → IsTold O (f a))
    → IsTold O (elim o [ none ↦ x | some a ↦ f a ])
option-IsTold none x f p q = p
option-IsTold (some a) x f p q = q a

pub required-IsTold :
    {O : Type 0} (t : Fields) (field component : String) → IsTold O (required t field component)
unfolding required
required-IsTold t field component = option-IsTold (lookup t field) _ _ (tells _) returns

pub section_of-IsTold :
    {O : Type 0} (v : Value) (d : Fields) (name : String)
    → get d name ≡ v
    → IsTold O (section d name)
unfolding section
section_of-IsTold (dict (entry k v m)) d name e = rw (e, section) (returns (entry k v m))
section_of-IsTold (dict empty) d name e = rw (e, section) (tells _)
section_of-IsTold none_value d name e = rw (e, section) (tells _)
section_of-IsTold (bool b) d name e = rw (e, section) (tells _)
section_of-IsTold (int i) d name e = rw (e, section) (tells _)
section_of-IsTold (float x) d name e = rw (e, section) (tells _)
section_of-IsTold (str s) d name e = rw (e, section) (tells _)
section_of-IsTold (list xs) d name e = rw (e, section) (tells _)

pub section-IsTold : {O : Type 0} (d : Fields) (name : String) → IsTold O (section d name)
section-IsTold d name = section_of-IsTold (get d name) d name refl

pub strings-IsTold : {O : Type 0} (vs : Items) (field : String) → IsTold O (strings_of vs field)
unfolding strings_of
strings-IsTold {O} nil field = returns []
strings-IsTold {O} (cons v vs) field =
    search (told_rules, string-IsTold, strings-IsTold {O = O} vs field)

pub ids-IsTold :
    {O : Type 0} (v : Value) (client_id : String) → IsTold O (server_ids_of v client_id)
unfolding server_ids_of
ids-IsTold (list (cons v vs)) client_id = search (told_rules, strings-IsTold (cons v vs) (_))
ids-IsTold (list nil) client_id = tells _
ids-IsTold none_value client_id = tells _
ids-IsTold (bool b) client_id = tells _
ids-IsTold (int i) client_id = tells _
ids-IsTold (float x) client_id = tells _
ids-IsTold (str s) client_id = tells _
ids-IsTold (dict m) client_id = tells _

ruleset field_rules = (told_rules, string-IsTold, port-IsTold, table-IsTold, required-IsTold)

pub server-IsTold : {O : Type 0} (k : String) (raw : Value) → IsTold O (parse_server k raw)
unfolding parse_server
server-IsTold k raw = search field_rules depth 30

pub check_ids-IsTold :
    {O : Type 0} (servers : Table ServerConfig) (id : String) (ids : List String)
    → IsTold O (check_ids servers id ids)
unfolding check_ids
check_ids-IsTold {O} servers id [] = returns tt
check_ids-IsTold {O} servers id (x ∷ ids) =
    search (told_rules, check_ids-IsTold {O = O} servers id ids)

pub check_clients-IsTold :
    {O : Type 0} (servers : Table ServerConfig) (d : Table ClientConfig)
    → IsTold O (check_clients servers d)
unfolding check_clients
check_clients-IsTold {O} servers [] = returns tt
check_clients-IsTold {O} servers ((k, c) ∷ d) =
    search (told_rules, check_ids-IsTold, check_clients-IsTold {O = O} servers d)

pub check_lfds-IsTold :
    {O : Type 0} (servers : Table ServerConfig) (d : Table LfdConfig)
    → IsTold O (check_lfds servers d)
unfolding check_lfds
check_lfds-IsTold {O} servers [] = returns tt
check_lfds-IsTold {O} servers ((k, l) ∷ d) =
    search (told_rules, check_lfds-IsTold {O = O} servers d)
