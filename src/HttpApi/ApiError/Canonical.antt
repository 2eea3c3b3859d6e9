-- ===== src/HttpApi/ApiError/Canonical.antt =====
-- The rendered text, against the order and the repetitions of the errors.
use emovis_micro_service.Base.{lit, List, [], ◌∷◌, ◌≡◌, refl, ap, ◌∙◌, sym}
use emovis_micro_service.Base.Order.{sort}
use emovis_micro_service.Base.Compact.{compact, SameTexts, compact-sort-eq}
use emovis_micro_service.HttpApi.ApiError.{FieldError, parts_of, join, format_field_errors}

format-join :
    (fs : List FieldError) → format_field_errors fs ≡ join (lit "; ") (compact (sort (parts_of fs)))
unfolding format_field_errors sort compact
format-join [] = refl
format-join (f ∷ fs) = refl

-- Two lists of errors that render to the same texts, in whatever order and number, give the same
-- bytes.
pub format_field_errors-eq :
    (fs gs : List FieldError)
    → SameTexts (parts_of fs) (parts_of gs)
    → format_field_errors fs ≡ format_field_errors gs
format_field_errors-eq fs gs h =
    format-join fs
    ∙ (ap (join (lit "; ")) (compact-sort-eq (parts_of fs) (parts_of gs) h) ∙ sym (format-join gs))
