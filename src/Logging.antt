-- ===== src/Logging.antt =====
-- internal/platform/logging: the attributes of the records of the log. The output formats and the
-- levels of `slog` are not modelled.
pub mod Redact
use emovis_micro_service.Base.{Text, lit}
use emovis_micro_service.Base.Case.{CaseTables}
use emovis_micro_service.Logging.Redact.{Attrs, leaf, attr, redact_all}

-- `Options`, less the level and the format
pub record Options : Type 0 where
  pub service : Text
  pub environment : Text
  pub version : Text

-- The attributes that a record of the logger of `New` is written with.
unfoldable pub written : CaseTables → Options → Attrs → Attrs
written tables o attrs = redact_all tables (
    attr (leaf (lit "service") o.service)
      (attr (leaf (lit "env") o.environment) (attr (leaf (lit "version") o.version) attrs)))
