-- ===== src/Transport/RoundTrip.antt =====
-- Messages that are written to a stream, and the stream read again. The
-- laws of `json` and of `readline` are their documented behaviour.
use mathlib.Core.List.{append_assoc, append-nil}
use fall2026_18749_project.Prelude.{
  ℕ, zero, suc, ◌≡◌, ◌≢◌, refl, sym, ◌∙◌, ap, subst, true, false, List, [], ◌∷◌, ◌++◌, leb, length,
  inl, inr, Bool-cases,
}
use fall2026_18749_project.Value.{Value, dict, Fields}
use fall2026_18749_project.Result.{Result, ok, Result-cases, after_bind}
use fall2026_18749_project.Exec
use fall2026_18749_project.Exec.{Exec, pure}
use fall2026_18749_project.Protocol.Validate.{validate_message}
use fall2026_18749_project.Protocol.WellFormed.{IsValid}
use fall2026_18749_project.Protocol.Sound.{validate_message_sound}
use fall2026_18749_project.Protocol.Complete.{validate_message-IsValid}
use fall2026_18749_project.Transport.{
  Json, loaded, max_message_bytes, encode_message, decode_message, decoded, is_end, line_of,
  read_message, write_message,
}
use fall2026_18749_project.Transport.Same.{Same, Same-mapping, IsValid-Same}

module _ (json : Json) where
  abbrev pub HasNoNewline : List json.Byte → Type 0
  HasNoNewline [] = Unit {0}
  HasNoNewline (b ∷ t) = (b ≢ json.newline) × HasNoNewline t

  -- A text that `dumps` returns is one line, and `loads` returns an equal value for that line.
  pub record IsFaithful : Type 0 where
    pub one_line : (v : Value) (t : List json.Byte) → json.dumps v ≡ ok t → HasNoNewline t
    pub read_back :
        (v : Value) (t : List json.Byte)
        → json.dumps v ≡ ok t
        → (w : Value) × (json.loads (t ++ json.newline ∷ []) ≡ loaded w) × Same v w

  -- `readline` takes what stands before the first newline, and the newline.
  abbrev pub IsFraming : (List json.Byte → Result (List json.Byte) × List json.Byte) → Type 0
  IsFraming readline =
      (t rest : List json.Byte)
      → HasNoNewline t
      → leb (length (t ++ json.newline ∷ [])) max_message_bytes ≡ true
      → readline (t ++ json.newline ∷ rest) ≡ (ok (t ++ json.newline ∷ []), rest)

  unfoldable pub write_all : List Fields → Exec (List json.Byte) (Unit {0})
  write_all [] = pure tt
  write_all (m ∷ ms) = Exec.◌>>◌ (write_message json (ok tt) m) (write_all ms)

  unfoldable pub read_all :
      (List json.Byte → Result (List json.Byte) × List json.Byte)
      → ℕ
      → List json.Byte
      → List (Result Fields) × List json.Byte
  read_all readline zero s = ([], s)
  read_all readline (suc n) s =
      let (line, rest) = readline s in
      let (ms, left) = read_all readline n rest in (read_message json line ∷ ms, left)

  -- The messages are equal, one by one.
  abbrev pub Arrived : List Fields → List (Result Fields) → Type 0
  Arrived [] [] = Unit {0}
  Arrived [] (r ∷ rs) = ⊥
  Arrived (m ∷ ms) [] = ⊥
  Arrived (m ∷ ms) (r ∷ rs) = ((w : Fields) × (r ≡ ok w) × Same (dict m) (dict w)) × Arrived ms rs

  -- All messages have arrived, and nothing else is left.
  abbrev pub Received : List Fields → List (Result Fields) × List json.Byte → Type 0
  Received ms x = Arrived ms x.0 × (x.1 ≡ [])

  -- What `write_message` has written.
  record Written (m : Fields) (t : List json.Byte) : Type 0 where
    valid : IsValid m
    text : json.dumps (dict m) ≡ ok t
    bounded : leb (length (t ++ json.newline ∷ [])) max_message_bytes ≡ true

  encode_message-Written :
      (m : Fields) (line : List json.Byte)
      → encode_message json m ≡ ok line
      → leb (length line) max_message_bytes ≡ true
      → (t : List json.Byte) × (line ≡ t ++ json.newline ∷ []) × Written m t
  unfolding encode_message
  encode_message-Written m line h bounded = after_bind (validate_message (dict m)) _ h λ v e h.
      after_bind (json.dumps (dict v)) _ h λ t g h.
        let (same, valid) = validate_message_sound (dict m) v e in
        let same : v ≡ m = cc in
        let is : line ≡ t ++ json.newline ∷ [] = cc in
        (
          t,
          is,
          record { valid = rw same at valid; text = rw same at g; bounded = rw is at bounded },
        )

  write_message-Written :
      (m : Fields) (s : List json.Byte)
      → (write_message json (ok tt) m s).0 ≡ ok tt
      → (t : List json.Byte) × ((write_message json (ok tt) m s).1 ≡ s ++ (t ++ json.newline ∷ []))
        × Written m t
  unfolding write_message
  write_message-Written m s h = elim (Result-cases (encode_message json m)) [
    | inl (line, e) ↦ elim (Bool-cases (leb (length line) max_message_bytes)) [
      | inl g ↦
          let (t, is, q) = encode_message-Written m line e g in
          (t, rw (e, g) (ap (λ (x : List json.Byte). s ++ x) is), q)
      | inr g ↦ absurd (let h = rw (e, g) at h in cc)
    ]
    | inr (x, e) ↦ absurd (let h = rw e at h in cc)
  ]

  -- The lines of the messages, one after the other.
  abbrev AreLines : List Fields → List json.Byte → Type 0
  AreLines [] s = s ≡ []
  AreLines (m ∷ ms) s =
      (t : List json.Byte) × (rest : List json.Byte) × (s ≡ t ++ json.newline ∷ rest)
      × Written m t
      × AreLines ms rest

  joined :
      (a t b : List json.Byte) → (a ++ (t ++ json.newline ∷ [])) ++ b ≡ a ++ (t ++ json.newline ∷ b)
  joined a t b =
      append_assoc a (t ++ json.newline ∷ []) b
      ∙ ap (λ (x : List json.Byte). a ++ x) (append_assoc t (json.newline ∷ []) b)

  write_all-AreLines :
      (ms : List Fields) (s : List json.Byte)
      → (write_all ms s).0 ≡ ok tt
      → (lines : List json.Byte) × ((write_all ms s).1 ≡ s ++ lines) × AreLines ms lines
  unfolding write_all
  write_all-AreLines [] s h = ([], sym (append-nil s), refl)
  write_all-AreLines (m ∷ ms) s h = elim (Result-cases (write_message json (ok tt) m s).0) [
    | inl (u, e) ↦
        let (t, is, q) = write_message-Written m s e in
        let (lines, later, rest) =
          write_all-AreLines ms (write_message json (ok tt) m s).1 (let h = rw e at h in h) in
        (
          t ++ json.newline ∷ lines,
          rw e (later ∙ rw is (joined s t lines)),
          (t, lines, refl, q, rest),
        )
    | inr (x, e) ↦ absurd (let h = rw e at h in cc)
  ]

  module _ (law : IsFaithful) (readline : List json.Byte → Result (List json.Byte) × List json.Byte)
      (framing : IsFraming readline) where
    not_end : (t : List json.Byte) → is_end json (t ++ json.newline ∷ []) ≡ false
    unfolding is_end
    not_end [] = refl
    not_end (b ∷ t) = refl

    read_message-Written :
        (m : Fields) (t : List json.Byte)
        → Written m t
        → (w : Fields) × (read_message json (ok (t ++ json.newline ∷ [])) ≡ ok w)
          × Same (dict m) (dict w)
    unfolding read_message line_of decode_message decoded
    read_message-Written m t q =
        let (v, held, same) = law.read_back (dict m) t q.text in
        let (w, is, inner) = Same-mapping same refl in
        (
          w,
          simp (
            not_end t,
            q.bounded,
            held,
            is,
            validate_message-IsValid w (IsValid-Same inner q.valid),
          ),
          subst (λ (x : Value). Same (dict m) x) is same,
        )

    read_step :
        (n : ℕ) (m : Fields) (t rest : List json.Byte)
        → Written m t
        → read_all readline (suc n) (t ++ json.newline ∷ rest) ≡ (
          read_message json (ok (t ++ json.newline ∷ [])) ∷ (read_all readline n rest).0,
          (read_all readline n rest).1,
        )
    unfolding read_all
    read_step n m t rest q = rw (framing t rest (law.one_line (dict m) t q.text) q.bounded) refl

    AreLines-Arrived :
        (ms : List Fields) (s : List json.Byte)
        → AreLines ms s
        → Received ms (read_all readline (length ms) s)
    unfolding read_all
    AreLines-Arrived [] s h = (tt, h)
    AreLines-Arrived (m ∷ ms) s (t, rest, is, q, later) =
        let (arrived, left) = AreLines-Arrived ms rest later in
        subst (λ (x : List json.Byte). Received (m ∷ ms) (read_all readline (suc (length ms)) x))
          (sym is)
          (subst (λ (x : List (Result Fields) × List json.Byte). Received (m ∷ ms) x)
            (sym (read_step (length ms) m t rest q)) ((read_message-Written m t q, arrived), left))

    -- If `write_message` writes a sequence of messages to a stream without raising, then as many
    -- calls of `read_message` on it return messages equal to them, dicts compared by their keys, in
    -- the same order, and nothing is left on the stream - for a `json` whose texts are single lines
    -- that `loads` reads back as an equal value, and a `readline` that splits after the first
    -- newline where the line is at most 65536 bytes long.
    pub messages_arrive :
        (ms : List Fields)
        → (write_all ms []).0 ≡ ok tt
        → Received ms (read_all readline (length ms) (write_all ms []).1)
    messages_arrive ms h =
        let (lines, is, q) = write_all-AreLines ms [] h in rw is (AreLines-Arrived ms lines q)
