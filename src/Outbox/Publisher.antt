-- ===== src/Outbox/Publisher.antt =====
-- internal/outbox/publisher.go: the publisher that writes a log record for each event.
use emovis_micro_service.Base.{Text, lit, length, pos, [], ◌∷◌, Option, none, ◌≡◌, refl}
use emovis_micro_service.Base.Format.{decimal_text}
use emovis_micro_service.Transaction.Model.{Uuid}
use emovis_micro_service.Outbox.Event.{Event}
use emovis_micro_service.HttpApi.Reply.{LogRecord, info}

-- `Publish`: the record, and that it does not fail.
unfoldable pub publish : (Uuid → Text) → Event → LogRecord × Option Text
publish uuid_text e = (
  record {
    level = info;
    message = lit "outbox event published";
    attrs =
        (lit "event_id", uuid_text e.id)
        ∷ (lit "event_type", e.kind)
        ∷ (lit "aggregate_id", uuid_text e.aggregate_id)
        ∷ (lit "payload_bytes", decimal_text (pos (length e.payload)))
        ∷ [];
  },
  none,
)

-- Of a payload, which holds plates and transponders, nothing is logged but its length.
pub publish-private :
    (uuid_text : Uuid → Text) (e : Event) (payload : Text)
    → length payload ≡ length e.payload
    → publish uuid_text (record e { payload = payload }) ≡ publish uuid_text e
unfolding publish
publish-private uuid_text e payload h = rw h refl
