-- ===== src/Reporter/Reports.antt =====
-- What the GFD has been told: the last report of the connection.
use fall2026_18749_project.Prelude.{
  String, ◌≡◌, refl, subst, Bool, true, false, ◌||◌, Option, none, some, List, [], ◌∷◌, ◌++◌, arith,
  if◌then◌else◌,
}
use fall2026_18749_project.Value.{Value, bool, dict, Fields, get, lookup, eq_str}
use fall2026_18749_project.Result.{Result, ok, err, guard, after_bind}
use fall2026_18749_project.Access.{payload_item, as_mapping}
use fall2026_18749_project.Protocol.{register, membership, heartbeat_ack, text}
use fall2026_18749_project.Protocol.Validate.{item, validate_message}
use fall2026_18749_project.Protocol.Build.{
  report_fields, build_membership, heartbeat_fields, build_heartbeat_ack,
}
use fall2026_18749_project.Protocol.Sound.{validate_message_sound}

abbrev health_in : Result Value → Option Bool
health_in (ok (bool b)) = some b
health_in (ok _) = none
health_in (err e) = none

-- The health that a message reports, if it is a report.
unfoldable pub report_of : Fields → Option Bool
report_of m =
    if eq_str (get m "type") (text register) || eq_str (get m "type") (text membership)
    then health_in (payload_item m "healthy")
    else none

abbrev pub or_else : Option Bool → Option Bool → Option Bool
or_else none o = o
or_else (some b) o = some b

unfoldable pub last_report : List Fields → Option Bool
last_report [] = none
last_report (m ∷ ms) = or_else (last_report ms) (report_of m)

pub last_report-append :
    (ms : List Fields) (m : Fields)
    → last_report (ms ++ m ∷ []) ≡ or_else (report_of m) (last_report ms)
unfolding last_report
last_report-append [] m = ground arith
last_report-append (x ∷ ms) m = ground (arith, last_report-append ms m)

pub build_membership-report_of :
    (l r : String) (h b : Bool) (m : Fields)
    → build_membership l r h b ≡ ok m
    → report_of m ≡ some h
unfolding build_membership report_of get lookup eq_str payload_item item as_mapping
build_membership-report_of l r h true m e =
    let (same, valid) = validate_message_sound _ m e in
    let is : report_fields register l r h ≡ m = cc in
    subst (λ (x : Fields). report_of x ≡ some h) is refl
build_membership-report_of l r h false m e =
    let (same, valid) = validate_message_sound _ m e in
    let is : report_fields membership l r h ≡ m = cc in
    subst (λ (x : Fields). report_of x ≡ some h) is refl

pub build_heartbeat_ack-report_of :
    (beat m : Fields) → build_heartbeat_ack beat ≡ ok m → report_of m ≡ none
unfolding build_heartbeat_ack report_of get lookup eq_str
build_heartbeat_ack-report_of beat m h = after_bind (validate_message (dict beat)) _ h λ v e h.
    after_bind (item v "type") _ h λ k e h. after_bind (guard (eq_str k _) _) _ h λ u e h.
      after_bind (item v "destination") _ h λ d e h. after_bind (item v "source") _ h λ s e h.
        after_bind (item v "heartbeat_count") _ h λ c e h.
          let (same, valid) = validate_message_sound _ m h in
          let is : heartbeat_fields heartbeat_ack d s c ≡ m = cc in
          subst (λ (x : Fields). report_of x ≡ none) is refl
