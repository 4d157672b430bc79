-- ===== src/Transport/Bounds.antt =====
-- What can come out of a stream, and how much goes into it.
use fall2026_18749_project.Prelude.{
  ◌≤◌, ◌≡◌, ◌≢◌, refl, true, not, List, [], ◌∷◌, ◌++◌, leb, leb→le, length, ◌⊎◌, inl, inr,
  Bool-cases,
}
use fall2026_18749_project.Value.{Fields}
use fall2026_18749_project.Result.{
  Result, ok, err, Result-cases, after_bind, after_guard, value_error,
}
use fall2026_18749_project.Protocol.WellFormed.{IsValid}
use fall2026_18749_project.Protocol.Sound.{validate_message_sound}
use fall2026_18749_project.Transport.{
  Json, max_message_bytes, encode_message, decode_message, decoded, is_end, line_of, read_message,
  write_message,
}

module _ (json : Json) where
  -- What a successful read has gone through.
  pub record WasRead (r : Result (List json.Byte)) (m : Fields) : Type 0 where
    pub line : List json.Byte
    pub came : r ≡ ok line
    pub not_end : line ≢ []
    pub bounded : length line ≤ max_message_bytes
    pub valid : IsValid m

  not_nil : (line : List json.Byte) → not (is_end json line) ≡ true → line ≢ []
  unfolding is_end
  not_nil [] h e = cc
  not_nil (b ∷ line) h e = cc

  line_of-eq-ok :
      (r : Result (List json.Byte)) (line : List json.Byte) → line_of json r ≡ ok line → r ≡ ok line
  unfolding line_of
  line_of-eq-ok (ok t) line h = h
  line_of-eq-ok (err (value_error t)) line h = cc
  line_of-eq-ok (err _) line h = cc

  -- What `read_message` returns is a valid message, and came from a line that is not empty and at
  -- most 65536 bytes long.
  pub read_message-WasRead :
      (r : Result (List json.Byte)) (m : Fields) → read_message json r ≡ ok m → WasRead r m
  unfolding read_message decode_message
  read_message-WasRead r m h = after_bind (line_of json r) _ h λ line e h.
      after_guard (not (is_end json line)) _ _ h λ some_bytes h.
        after_guard (leb (length line) max_message_bytes) _ _ h λ bounded h.
          after_bind (decoded json (json.loads line)) _ h λ v g h. record {
            line = line;
            came = line_of-eq-ok r line e;
            not_end = not_nil line some_bytes;
            bounded = leb→le _ _ bounded;
            valid = (validate_message_sound v m h).1;
          }

  -- `write_message` either writes nothing and does not return, or writes the encoded message, at
  -- most 65536 bytes, and ends as the wait for the buffer does.
  pub write_message_bounded :
      (drain : Result (Unit {0})) (m : Fields) (s : List json.Byte)
      → (((write_message json drain m s).0 ≢ ok tt) × ((write_message json drain m s).1 ≡ s))
        ⊎ ((line : List json.Byte) × (encode_message json m ≡ ok line)
            × (length line ≤ max_message_bytes)
            × ((write_message json drain m s).0 ≡ drain)
            × ((write_message json drain m s).1 ≡ s ++ line))
  unfolding write_message
  write_message_bounded drain m s = elim (Result-cases (encode_message json m)) [
    | inl (line, e) ↦ elim (Bool-cases (leb (length line) max_message_bytes)) [
      | inl g ↦ inr (line, e, leb→le _ _ g, rw (e, g) refl, rw (e, g) refl)
      | inr g ↦ inl (rw (e, g) ((λ h. cc), refl))
    ]
    | inr (x, e) ↦ inl (rw e ((λ h. cc), refl))
  ]
