-- ===== src/Lifecycle/Canonical.antt =====
-- packages/action-lifecycle/src/canonical.ts and summary.ts: the canonical text of a value, the
-- fingerprint of an action, and the summary that a user is asked to confirm.
use Prim.Native.String.{◌++◌ as ◌⧺◌}
use drive_guard.Prelude.{ℕ, String, Bool, Option, none, some, List, [], ◌∷◌, if◌then◌else◌, str_eq}
use drive_guard.Js.{Js}
use drive_guard.Json.{
  Number, finite, not_finite, minus_zero, Value, null, exotic, bool, text, num, count, time, arr,
  obj, Items, nil, cons, Fields, end, field,
}
use drive_guard.Policy.{RiskLevel, r0, r1, r2, r3, unknown_risk}

-- xs.join(separator)
unfoldable pub join : String → List String → String
join separator [] = ""
join separator (x ∷ []) = x
join separator (x ∷ (y ∷ ys)) = x ⧺ separator ⧺ join separator (y ∷ ys)

insert_entry :
    (String → String → Bool) → String × String → List (String × String) → List (String × String)
insert_entry before (k, v) [] = (k, v) ∷ []
insert_entry before (k, v) ((j, w) ∷ es) =
    let rest = insert_entry before (k, v) es in
    if before j k then (j, w) ∷ rest else (k, v) ∷ (j, w) ∷ es

-- Object.keys(value).sort(), each key with the text made of its value
unfoldable pub sort_entries :
    (String → String → Bool) → List (String × String) → List (String × String)
unfolding insert_entry
sort_entries before [] = []
sort_entries before (e ∷ es) = insert_entry before e (sort_entries before es)

abbrev number_text : Number → Option String
number_text (finite s) = some s
number_text (not_finite s) = none
number_text minus_zero = some "0"

abbrev with_entry :
    String → Option String → Option (List (String × String)) → Option (List (String × String))
with_entry key none es = none
with_entry key (some v) none = none
with_entry key (some v) (some es) = some ((key, v) ∷ es)

abbrev with_item : Option String → Option (List String) → Option (List String)
with_item none vs = none
with_item (some v) none = none
with_item (some v) (some vs) = some (v ∷ vs)

abbrev bracket : Option (List String) → Option String
bracket none = none
bracket (some vs) = some ("[" ⧺ join "," vs ⧺ "]")

module _ (js : Js) where
  abbrev entry_texts : String → List (String × String) → List String
  entry_texts colon [] = []
  entry_texts colon ((k, v) ∷ es) = (js.quote k ⧺ colon ⧺ v) ∷ entry_texts colon es

  abbrev brace : Option (List (String × String)) → Option String
  brace none = none
  brace (some es) = some ("{" ⧺ join "," (entry_texts ":" (sort_entries js.before es)) ⧺ "}")

  -- canonicalSerialize; `none` is the ActionLifecycleError INVALID_COMMAND.
  unfoldable mutual
    pub canonical : Value → Option String
    canonical null = some "null"
    canonical exotic = none
    canonical (bool b) = some (if b then "true" else "false")
    canonical (text s) = some (js.quote s)
    canonical (num n) = number_text n
    canonical (count n) = some (js.decimal n)
    canonical (time t) = some (js.quote (js.iso t))
    canonical (arr xs) = bracket (canonical_items xs)
    canonical (obj fs) = brace (canonical_entries fs)

    pub canonical_items : Items → Option (List String)
    canonical_items nil = some []
    canonical_items (cons x xs) = with_item (canonical x) (canonical_items xs)

    pub canonical_entries : Fields → Option (List (String × String))
    canonical_entries end = some []
    canonical_entries (field k v fs) = with_entry k (canonical v) (canonical_entries fs)

pub record FingerprintInput : Type 0 where
  pub tool_name : String
  pub validated_arguments : Value
  pub session_id : String
  pub user_id : String
  pub vehicle_id : String
  pub context_snapshot_id : String
  pub context_version : ℕ

fingerprint_value : FingerprintInput → Value
fingerprint_value i = obj (
    field "toolName" (text i.tool_name) (
      field "validatedArguments" i.validated_arguments (
        field "sessionId" (text i.session_id) (
          field "userId" (text i.user_id) (
            field "vehicleId" (text i.vehicle_id) (
              field "contextSnapshotId" (text i.context_snapshot_id)
                (field "contextVersion" (count i.context_version) end)))))))

abbrev pub digest : Js → Option String → Option String
digest js none = none
digest js (some t) = some (js.sha256 t)

-- createActionFingerprint
unfoldable pub create_action_fingerprint : Js → FingerprintInput → Option String
unfolding fingerprint_value canonical
create_action_fingerprint js i = digest js (canonical js (fingerprint_value i))

-- displayValue
display_value : Js → Value → Option String
display_value js (text s) = some s
display_value js (num (finite s)) = some s
display_value js (num (not_finite s)) = some s
display_value js (num minus_zero) = some "0"
display_value js (count n) = some (js.decimal n)
display_value js (bool b) = some (if b then "true" else "false")
display_value js null = some "null"
display_value js (time t) = some (js.iso t)
display_value js v = canonical js v

display_entries : Js → Fields → Option (List (String × String))
unfolding display_value
display_entries js end = some []
display_entries js (field k v fs) = with_entry k (display_value js v) (display_entries js fs)

abbrev equations : List (String × String) → List String
equations [] = []
equations ((k, v) ∷ es) = (k ⧺ "=" ⧺ v) ∷ equations es

abbrev listed : Js → Option (List (String × String)) → Option String
listed js none = none
listed js (some es) = some (join ", " (equations (sort_entries js.before es)))

argument_text : Js → Value → Option String
unfolding display_entries
argument_text js (obj fs) = listed js (display_entries js fs)
argument_text js v = display_value js v

abbrev pub risk_text : RiskLevel → String
risk_text r0 = "R0"
risk_text r1 = "R1"
risk_text r2 = "R2"
risk_text r3 = "R3"
risk_text unknown_risk = "UNKNOWN"

abbrev summary_of : String → RiskLevel → Option String → Option String
summary_of label risk none = none
summary_of label risk (some t) =
    some (
      label ⧺ ": " ⧺ (if str_eq t "" then "no arguments" else t) ⧺ ". Risk " ⧺ risk_text risk ⧺ ".")

-- createConfirmationSummary, of a definition's label and risk level
unfoldable pub create_confirmation_summary : Js → String → RiskLevel → Value → Option String
unfolding argument_text
create_confirmation_summary js label risk arguments =
    summary_of label risk (argument_text js arguments)
