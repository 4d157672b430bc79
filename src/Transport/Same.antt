-- ===== src/Transport/Same.antt =====
-- Values that are equal in Python: a dict is what its keys hold, in whatever order it was built.
use fall2026_18749_project.Prelude.{
  ℕ, String, ◌≡◌, refl, Bool, Option, none, some, inl, inr, subst, sym, ap, ◌∙◌, true, false, ◌==◌,
  if◌then◌else◌,
}
use fall2026_18749_project.Value.{
  ℤ, Float, Value, none_value, bool, int, float, str, list, dict, Items, nil, cons, Fields, empty,
  entry, lookup, get, eq_int, or_none,
}
use fall2026_18749_project.Protocol.WellFormed.{
  HasText, Envelope, Identity, IsRequest, IsReply, IsBeat, IsReport, ErrorId, IsError, IsValid,
  valid_request, valid_reply, valid_heartbeat, valid_ack, valid_register, valid_membership,
  valid_error,
}
use fall2026_18749_project.Protocol.{MessageType, protocol_version}

mutual
  pub data Same : Value → Value → Type 0 where
    same_none : Same none_value none_value
    same_bool : (b : Bool) → Same (bool b) (bool b)
    same_int : (i : ℤ) → Same (int i) (int i)
    same_float : (x : Float) → Same (float x) (float x)
    same_str : (s : String) → Same (str s) (str s)
    same_list : (a b : Items) → SameItems a b → Same (list a) (list b)
    same_dict :
        (m w : Fields)
        → ((k : String) → SameEntry (lookup m k) (lookup w k))
        → Same (dict m) (dict w)

  pub data SameEntry : Option Value → Option Value → Type 0 where
    both_missing : SameEntry none none
    both_held : (v w : Value) → Same v w → SameEntry (some v) (some w)

  pub data SameItems : Items → Items → Type 0 where
    same_nil : SameItems nil nil
    same_cons :
        (v w : Value) (a b : Items) → Same v w → SameItems a b → SameItems (cons v a) (cons w b)

abbrev pub SameFields : Fields → Fields → Type 0
SameFields m w = (k : String) → SameEntry (lookup m k) (lookup w k)

abbrev IsAtom : Value → Type 0
IsAtom (list a) = ⊥
IsAtom (dict m) = ⊥
IsAtom _ = Unit {0}

Same-atom : {v w : Value} → Same v w → IsAtom v → w ≡ v
Same-atom same_none a = refl
Same-atom (same_bool b) a = refl
Same-atom (same_int i) a = refl
Same-atom (same_float x) a = refl
Same-atom (same_str s) a = refl
Same-atom (same_list a b h) x = absurd x
Same-atom (same_dict m w h) x = absurd x

entry_atom : {o p : Option Value} {v : Value} → SameEntry o p → IsAtom v → o ≡ some v → p ≡ some v
entry_atom both_missing a h = cc
entry_atom {v} (both_held u w same) a h =
    let e : u ≡ v = cc in
    let g : w ≡ u = Same-atom same (subst (λ (x : Value). IsAtom x) (sym e) a) in cc

entry_missing : {o p : Option Value} → SameEntry o p → o ≡ none → p ≡ none
entry_missing both_missing h = refl
entry_missing (both_held u w same) h = cc

pub Same-mapping :
    {v w : Value} {p : Fields}
    → Same v w
    → v ≡ dict p
    → (q : Fields) × (w ≡ dict q) × SameFields p q
Same-mapping {p} (same_dict m w h) e =
    let f : m ≡ p = cc in (w, refl, subst (λ (x : Fields). SameFields x w) f h)
Same-mapping _ e = absurd (let e = e in cc)

Same-number : {v w : Value} (i : ℤ) → Same v w → eq_int w i ≡ eq_int v i
unfolding eq_int
Same-number i (same_list a b h) = refl
Same-number i (same_dict m w h) = refl
Same-number i same_none = refl
Same-number i (same_bool b) = refl
Same-number i (same_int j) = refl
Same-number i (same_float x) = refl
Same-number i (same_str s) = refl

entry_number :
    {o p : Option Value} (i : ℤ) → SameEntry o p → eq_int (or_none p) i ≡ eq_int (or_none o) i
entry_number i both_missing = refl
entry_number i (both_held u w same) = Same-number i same

entry_mapping :
    {o o' : Option Value} {p : Fields}
    → SameEntry o o'
    → o ≡ some (dict p)
    → (q : Fields) × (o' ≡ some (dict q)) × SameFields p q
entry_mapping both_missing h = cc
entry_mapping {p} (both_held u w same) h =
    let e : u ≡ dict p = cc in
    let (q, is, held) = Same-mapping same e in (q, ap (λ (x : Value). some x) is, held)

module _ {m w : Fields} (same : SameFields m w) where
  text-Same : {k s : String} → HasText m k s → HasText w k s
  text-Same {k} q = record { held = entry_atom (same k) tt q.held; not_blank = q.not_blank }

  Envelope-Same :
      {kind : MessageType} {s d : String} {p : Fields}
      → Envelope m kind s d p
      → (q : Fields) × Envelope w kind s d q × SameFields p q
  unfolding get
  Envelope-Same q =
      let (p, held, inner) = entry_mapping (same "payload") q.payload_held in
      (
        p,
        record {
          version = entry_number protocol_version (same "version") ∙ q.version;
          type = entry_atom (same "type") tt q.type;
          source_text = text-Same q.source_text;
          destination_text = text-Same q.destination_text;
          payload_held = held;
        },
        inner,
      )

  Identity-Same : {c r : String} {n : ℕ} → Identity m c r n → Identity w c r n
  Identity-Same q = record {
    client_text = text-Same q.client_text;
    replica_text = text-Same q.replica_text;
    number_held = entry_atom (same "request_num") tt q.number_held;
    id_text = text-Same q.id_text;
  }

module _ {m w : Fields} (same : SameFields m w) where
  pub IsReply-Same : {c r : String} {n v : ℕ} → IsReply m c r n v → IsReply w c r n v
  IsReply-Same q =
      let (p, envelope, inner) = Envelope-Same same q.envelope in
      record {
        payload = p;
        envelope = envelope;
        identity = Identity-Same same q.identity;
        value_held = entry_atom (inner "client_value") tt q.value_held;
      }

  request-Same : {c r o : String} {n : ℕ} → IsRequest m c r o n → IsRequest w c r o n
  request-Same q =
      let (p, envelope, inner) = Envelope-Same same q.envelope in
      record {
        payload = p;
        envelope = envelope;
        identity = Identity-Same same q.identity;
        operation_text = text-Same inner q.operation_text;
      }

  IsBeat-Same :
      {kind : MessageType} {s d : String} {n : ℕ} → IsBeat kind m s d n → IsBeat kind w s d n
  IsBeat-Same q =
      let (p, envelope, inner) = Envelope-Same same q.envelope in
      record {
        payload = p;
        envelope = envelope;
        count_held = entry_atom (same "heartbeat_count") tt q.count_held;
      }

  IsReport-Same :
      {kind : MessageType} {s r : String} {h : Bool} → IsReport kind m s r h → IsReport kind w s r h
  IsReport-Same q =
      let (p, envelope, inner) = Envelope-Same same q.envelope in
      record {
        payload = p;
        envelope = envelope;
        replica_text = text-Same inner q.replica_text;
        healthy_held = entry_atom (inner "healthy") tt q.healthy_held;
      }

  id-Same : ErrorId m → ErrorId w
  id-Same (inl h) = inl (entry_missing (same "request_id") h)
  id-Same (inr (s, q)) = inr (s, text-Same same q)

  IsError-Same : {s d c t : String} → IsError m s d c t → IsError w s d c t
  IsError-Same q =
      let (p, envelope, inner) = Envelope-Same same q.envelope in
      record {
        payload = p;
        envelope = envelope;
        code_text = text-Same inner q.code_text;
        detail_text = text-Same inner q.detail_text;
        id_held = id-Same q.id_held;
      }

  pub IsValid-Same : IsValid m → IsValid w
  IsValid-Same (valid_request c r o n q) = valid_request c r o n (request-Same q)
  IsValid-Same (valid_reply c r n v q) = valid_reply c r n v (IsReply-Same q)
  IsValid-Same (valid_heartbeat s d n q) = valid_heartbeat s d n (IsBeat-Same q)
  IsValid-Same (valid_ack s d n q) = valid_ack s d n (IsBeat-Same q)
  IsValid-Same (valid_register s r h q) = valid_register s r h (IsReport-Same q)
  IsValid-Same (valid_membership s r h q) = valid_membership s r h (IsReport-Same q)
  IsValid-Same (valid_error s d c t q) = valid_error s d c t (IsError-Same q)

entry_refl :
    (b : Bool) (v : Value) (o : Option Value)
    → Same v v
    → SameEntry o o
    → SameEntry (if b then some v else o) (if b then some v else o)
entry_refl true v o h g = both_held v v h
entry_refl false v o h g = g

mutual
  unfolding lookup

  pub Same-refl : (v : Value) → Same v v
  Same-refl none_value = same_none
  Same-refl (bool b) = same_bool b
  Same-refl (int i) = same_int i
  Same-refl (float x) = same_float x
  Same-refl (str s) = same_str s
  Same-refl (list a) = same_list a a (SameItems-refl a)
  Same-refl (dict m) = same_dict m m (λ k. SameFields-refl m k)

  SameItems-refl : (a : Items) → SameItems a a
  SameItems-refl nil = same_nil
  SameItems-refl (cons v a) = same_cons v v a a (Same-refl v) (SameItems-refl a)

  SameFields-refl : (m : Fields) → SameFields m m
  SameFields-refl empty k = both_missing
  SameFields-refl (entry j v m) k =
      entry_refl (j == k) v (lookup m k) (Same-refl v) (SameFields-refl m k)
