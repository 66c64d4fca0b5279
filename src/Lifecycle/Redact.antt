-- ===== src/Lifecycle/Redact.antt =====
-- acp/lifecycle.go: redactJSON and isSensitiveKey, on decoded JSON values.
use go_agent_wrapper.Shared.{
  Bytes, bytes, to_lower, has_substring, ◌≡◌, refl, Bool, true, false, ◌||◌, inl, inr, List, [],
  ◌∷◌, nat_eq, if◌then◌else◌, Bool-cases,
}

-- What json.Unmarshal makes of a document; a number is kept as its literal.
mutual
  pub data Json : Type 0 where
    null : Json
    boolean : Bool → Json
    number text : Bytes → Json
    array : Items → Json
    object : Fields → Json

  pub data Items : Type 0 where
    no_items : Items
    item : Json → Items → Items

  pub data Fields : Type 0 where
    no_fields : Fields
    field : Bytes → Json → Fields → Fields

-- strings.ReplaceAll(key, "-", "_")
unfoldable pub dashes_to_underscores : Bytes → Bytes
dashes_to_underscores [] = []
dashes_to_underscores (c ∷ s) = (if nat_eq c b'-' then b'_' else c) ∷ dashes_to_underscores s

abbrev pub markers : List Bytes
markers =
    bytes "authorization"
    ∷ bytes "cookie"
    ∷ bytes "api_key"
    ∷ bytes "apikey"
    ∷ bytes "token"
    ∷ bytes "password"
    ∷ bytes "secret"
    ∷ []

unfoldable pub has_marker : Bytes → List Bytes → Bool
unfolding has_substring
has_marker key [] = false
has_marker key (m ∷ ms) = has_substring key m || has_marker key ms

unfoldable pub is_sensitive_key : Bytes → Bool
unfolding has_marker dashes_to_underscores to_lower
is_sensitive_key key = has_marker (to_lower (dashes_to_underscores key)) markers

abbrev pub redacted : Json
redacted = text (bytes "[REDACTED]")

-- redactJSON writes into the maps and lists it is given; this is the value that results.
unfoldable mutual
  pub redact_json : Json → Json
  redact_json null = null
  redact_json (boolean b) = boolean b
  redact_json (number n) = number n
  redact_json (text s) = text s
  redact_json (array v) = array (redact_items v)
  redact_json (object v) = object (redact_fields v)

  pub redact_items : Items → Items
  redact_items no_items = no_items
  redact_items (item v rest) = item (redact_json v) (redact_items rest)

  pub redact_fields : Fields → Fields
  redact_fields no_fields = no_fields
  redact_fields (field key v rest) =
      field key (if is_sensitive_key key then redacted else redact_json v) (redact_fields rest)

-- No secret is left: a sensitive key holds the mark at every depth.
unfoldable mutual
  pub IsClean : Json → Type 0
  IsClean (array v) = AreClean v
  IsClean (object v) = IsCleanObject v
  IsClean _ = Unit

  pub AreClean : Items → Type 0
  AreClean no_items = Unit
  AreClean (item v rest) = IsClean v × AreClean rest

  pub IsCleanObject : Fields → Type 0
  IsCleanObject no_fields = Unit
  IsCleanObject (field key v rest) =
      (is_sensitive_key key ≡ true → v ≡ redacted) × IsClean v × IsCleanObject rest

-- What the redaction may not touch: the shape, the keys, and what no sensitive key covers.
unfoldable mutual
  pub Redacts : Json → Json → Type 0
  Redacts (array v) (array w) = RedactsItems v w
  Redacts (object v) (object w) = RedactsFields v w
  Redacts v w = v ≡ w

  pub RedactsItems : Items → Items → Type 0
  RedactsItems no_items no_items = Unit
  RedactsItems (item v rest) (item w others) = Redacts v w × RedactsItems rest others
  RedactsItems _ _ = ⊥

  pub RedactsFields : Fields → Fields → Type 0
  RedactsFields no_fields no_fields = Unit
  RedactsFields (field key v rest) (field other w others) =
      (key ≡ other) × (is_sensitive_key key ≡ false → Redacts v w) × RedactsFields rest others
  RedactsFields _ _ = ⊥

mutual
  unfolding IsClean redact_json

  json-IsClean : (v : Json) → IsClean (redact_json v)
  json-IsClean null = tt
  json-IsClean (boolean b) = tt
  json-IsClean (number n) = tt
  json-IsClean (text s) = tt
  json-IsClean (array v) = items-clean v
  json-IsClean (object v) = fields-clean v

  items-clean : (v : Items) → AreClean (redact_items v)
  items-clean no_items = tt
  items-clean (item v rest) = (json-IsClean v, items-clean rest)

  fields-clean : (v : Fields) → IsCleanObject (redact_fields v)
  fields-clean no_fields = tt
  fields-clean (field key v rest) = elim (Bool-cases (is_sensitive_key key)) [
    | inl e ↦ rw e (λ _. refl, tt, fields-clean rest)
    | inr e ↦ rw e (λ q. cc, json-IsClean v, fields-clean rest)
  ]

mutual
  unfolding Redacts redact_json

  json-Redacts : (v : Json) → Redacts v (redact_json v)
  json-Redacts null = refl
  json-Redacts (boolean b) = refl
  json-Redacts (number n) = refl
  json-Redacts (text s) = refl
  json-Redacts (array v) = items-redacts v
  json-Redacts (object v) = fields-redacts v

  items-redacts : (v : Items) → RedactsItems v (redact_items v)
  items-redacts no_items = tt
  items-redacts (item v rest) = (json-Redacts v, items-redacts rest)

  fields-redacts : (v : Fields) → RedactsFields v (redact_fields v)
  fields-redacts no_fields = tt
  fields-redacts (field key v rest) = (refl, λ e. rw e (json-Redacts v), fields-redacts rest)

-- Redacting leaves a JSON value in which every field with a sensitive key holds the mark, at every
-- depth; and it changes nothing else: the shape, the keys, and every value that no sensitive key
-- lies above are those of the input.
pub redact_json_lem : (v : Json) → IsClean (redact_json v) × Redacts v (redact_json v)
redact_json_lem v = (json-IsClean v, json-Redacts v)
