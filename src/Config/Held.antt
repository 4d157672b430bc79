-- ===== src/Config/Held.antt =====
-- Where the values that src/ft_system/common/config.py reads are in the file.
use fall2026_18749_project.Prelude.{
  Bool-cases, ◌==◌, subst, arith, String, ◌≡◌, refl, inl, inr, Option, none, some, Table, put,
}
use fall2026_18749_project.Value.{
  ℤ, Value, none_value, bool, int, float, str, list, dict, Fields, empty, entry, get, lookup,
  or_none,
}
use fall2026_18749_project.Result.{Result, ok, ◌>>=◌}
use fall2026_18749_project.Config.{section, required}
use fall2026_18749_project.Config.Tables.{table_of, parse_all}
use fall2026_18749_project.Config.Told.{
  IsTold, returns, tells, overflows, bind-IsTold, required-IsTold, section-IsTold,
}

-- `v` is a value of the dict.
pub data In (v : Value) : Fields → Type 0 where
  here : {k : String} {m : Fields} → In v (entry k v m)
  there : {k : String} {w : Value} {m : Fields} → In v m → In v (entry k w m)

-- The integer is a value of the dict or of a dict within it.
pub data Holds (i : ℤ) : Fields → Type 0 where
  item : {m : Fields} → In (int i) m → Holds i m
  nested : {m n : Fields} → In (dict n) m → Holds i n → Holds i m

pub lookup-In : (t : Fields) (field : String) (v : Value) → lookup t field ≡ some v → In v t
unfolding lookup
lookup-In empty field v h = cc
lookup-In (entry k w m) field v h = elim (Bool-cases (k == field)) [
  | inl same ↦
      let is : some w ≡ some v = (let h = rw same at h in h) in
      let is : w ≡ v = cc in subst (λ (x : Value). In x (entry k w m)) is here
  | inr other ↦ there (lookup-In m field v (let h = rw other at h in h))
]

required-lookup :
    (t : Fields) (field component : String) (v : Value)
    → required t field component ≡ ok v
    → lookup t field ≡ some v
unfolding required
required-lookup t field component v h = ground arith

or_none-dict : (o : Option Value) (m : Fields) → or_none o ≡ dict m → o ≡ some (dict m)
or_none-dict none m h = cc
or_none-dict (some v) m h = cc

section_value :
    (v : Value) (d : Fields) (name : String) (m : Fields)
    → get d name ≡ v
    → section d name ≡ ok m
    → v ≡ dict m
unfolding section
section_value (dict (entry k v t)) d name m e h = (let h = rw (e, section) at h in cc)
section_value (dict empty) d name m e h = absurd (let h = rw (e, section) at h in cc)
section_value none_value d name m e h = absurd (let h = rw (e, section) at h in cc)
section_value (bool b) d name m e h = absurd (let h = rw (e, section) at h in cc)
section_value (int i) d name m e h = absurd (let h = rw (e, section) at h in cc)
section_value (float x) d name m e h = absurd (let h = rw (e, section) at h in cc)
section_value (str s) d name m e h = absurd (let h = rw (e, section) at h in cc)
section_value (list xs) d name m e h = absurd (let h = rw (e, section) at h in cc)

section-lookup :
    (d : Fields) (name : String) (m : Fields)
    → section d name ≡ ok m
    → lookup d name ≡ some (dict m)
unfolding get
section-lookup d name m h =
    or_none-dict (lookup d name) m (section_value (get d name) d name m refl h)

section-In : (d : Fields) (name : String) (m : Fields) → section d name ≡ ok m → In (dict m) d
section-In d name m h = lookup-In d name (dict m) (section-lookup d name m h)

-- What follows a lookup knows where the value is from.
module _ {O A : Type 0} where
  pub known_bind :
      {B : Type 0} (r : Result B) (f : B → Result A)
      → IsTold O r
      → ((b : B) → r ≡ ok b → IsTold O (f b))
      → IsTold O (r >>= f)
  known_bind _ f (returns b) h = h b refl
  known_bind _ f (tells m) h = tells m
  known_bind _ f (overflows o) h = overflows o

  pub required_bind :
      (t : Fields) (field component : String) (f : Value → Result A)
      → ((v : Value) → In v t → IsTold O (f v))
      → IsTold O (required t field component >>= f)
  required_bind t field component f h =
      known_bind (required t field component) f (required-IsTold t field component)
        (λ v e. h v (lookup-In t field v (required-lookup t field component v e)))

  pub table_bind :
      (raw : Value) (component : String) (f : Fields → Result A)
      → ((t : Fields) → raw ≡ dict t → IsTold O (f t))
      → IsTold O (table_of raw component >>= f)
  unfolding table_of
  table_bind (dict t) component f h = h t refl
  table_bind none_value component f h = tells _
  table_bind (bool b) component f h = tells _
  table_bind (int i) component f h = tells _
  table_bind (float x) component f h = tells _
  table_bind (str s) component f h = tells _
  table_bind (list vs) component f h = tells _

  pub section_bind :
      (d : Fields) (name : String) (f : Fields → Result A)
      → ((m : Fields) → In (dict m) d → IsTold O (f m))
      → IsTold O (section d name >>= f)
  section_bind d name f h =
      known_bind (section d name) f (section-IsTold d name) (λ m e. h m (section-In d name m e))

pub parse_all-IsTold :
    {O V : Type 0} (parse : String → Value → Result V) (m : Fields) (d : Table V)
    → ((k : String) (raw : Value) → In raw m → IsTold O (parse k raw))
    → IsTold O (parse_all parse m d)
unfolding parse_all
parse_all-IsTold parse empty d told = returns d
parse_all-IsTold parse (entry k raw rest) d told =
    bind-IsTold (parse k raw) _ (told k raw here)
      (λ v. parse_all-IsTold parse rest (put d k v) (λ j w q. told j w (there q)))
