-- ===== src/HttpApi/ApiError.antt =====
-- internal/httpapi/apierror.go: field errors, and their rendering as one text.
pub mod Canonical
use emovis_micro_service.Base.{Text, lit, is_empty, ◌&&◌, if◌then◌else◌, List, [], ◌∷◌, ◌++◌}
use emovis_micro_service.Base.Order.{sort}
use emovis_micro_service.Base.Compact.{compact}

pub record FieldError : Type 0 where
  pub field : Text
  pub reason : Text

-- The loop of `formatFieldErrors`: an error with no text at all is skipped.
unfoldable pub parts_of : List FieldError → List Text
parts_of [] = []
parts_of (f ∷ fields) =
    let parts = parts_of fields in
    if is_empty f.field && is_empty f.reason
    then parts
    else if is_empty f.field
    then f.reason ∷ parts
    else (f.field ++ (lit ": " ++ f.reason)) ∷ parts

-- `strings.Join`
unfoldable pub join : Text → List Text → Text
join sep [] = []
join sep (s ∷ []) = s
join sep (s ∷ t ∷ ts) = s ++ (sep ++ join sep (t ∷ ts))

unfoldable pub format_field_errors : List FieldError → Text
unfolding parts_of join
format_field_errors [] = []
format_field_errors (f ∷ fields) = join (lit "; ") (compact (sort (parts_of (f ∷ fields))))
