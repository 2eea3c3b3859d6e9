-- ===== src/Logging/Redact.antt =====
-- internal/platform/logging/redact.go: which attributes of a record are replaced.
pub mod Private
use emovis_micro_service.Base.{
  Text, lit, text_eq, Bool, true, false, ◌||◌, if◌then◌else◌, List, [], ◌∷◌, ◌++◌,
}
use emovis_micro_service.Base.Case.{CaseTables, to_lower}

-- `slog.Attr`: a value, as its text, or a group of attributes.
mutual
  pub data Attr : Type 0 where
    leaf : Text → Text → Attr
    group : Text → Attrs → Attr

  pub data Attrs : Type 0 where
    none_left : Attrs
    attr : Attr → Attrs → Attrs

unfoldable pub redacted_value : Text
redacted_value = lit "[REDACTED]"

unfoldable pub sensitive_keys : List Text
sensitive_keys =
    lit "plate"
    ∷ lit "plate_number"
    ∷ lit "plate_number_key"
    ∷ lit "license_plate"
    ∷ lit "transponder"
    ∷ lit "transponder_number"
    ∷ lit "transponder_number_key"
    ∷ lit "tag_id"
    ∷ lit "vehicle_id"
    ∷ []

-- `strings.HasSuffix`
unfoldable pub has_suffix : Text → Text → Bool
has_suffix [] suffix = text_eq [] suffix
has_suffix (b ∷ s) suffix = text_eq (b ∷ s) suffix || has_suffix s suffix

-- The lookup in `sensitiveKeys`, and the loop over its keys.
unfoldable pub is_listed : Text → List Text → Bool
is_listed key [] = false
is_listed key (k ∷ keys) = text_eq k key || is_listed key keys

unfoldable pub ends_in_listed : Text → List Text → Bool
unfolding has_suffix
ends_in_listed key [] = false
ends_in_listed key (k ∷ keys) = has_suffix key (lit "_" ++ k) || ends_in_listed key keys

module _ (tables : CaseTables) where
  unfoldable pub is_sensitive_key : Text → Bool
  unfolding is_listed ends_in_listed sensitive_keys
  is_sensitive_key key =
      let normalized = to_lower tables key in
      if is_listed normalized sensitive_keys then true else ends_in_listed normalized sensitive_keys

  -- `redactSensitive`, which the handlers of `slog` call for every attribute that is no group, those
  -- in groups included.
  unfoldable mutual
    pub redact_sensitive : Attr → Attr
    redact_sensitive (leaf key value) =
        if is_sensitive_key key then leaf key redacted_value else leaf key value
    redact_sensitive (group key attrs) = group key (redact_all attrs)

    pub redact_all : Attrs → Attrs
    redact_all none_left = none_left
    redact_all (attr a attrs) = attr (redact_sensitive a) (redact_all attrs)
