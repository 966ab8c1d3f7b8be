-- ===== src/Event/Wire.antt =====
-- An event as a JSON text: json.Marshal and json.Unmarshal on event.Event.
use event_streaming_and_audi.Event.{Event}
use event_streaming_and_audi.Event.Json.{RawMessage, encoded, null, malformed, empty}
use event_streaming_and_audi.Errors.{Result, Error, ok, err, text, ◌>>=◌}

-- `of e` is a text that unmarshals to `e`, and `broken x` is one whose unmarshalling fails.
pub data Wire : Type 0 where
  of : Event → Wire
  broken : Error → Wire

-- Marshal checks a RawMessage, and writes null for one with no bytes.
abbrev pub payload_text : RawMessage → Result RawMessage
payload_text empty = ok (encoded null)
payload_text (encoded j) = ok (encoded j)
payload_text (malformed b) = err (text "json: error calling MarshalJSON for type json.RawMessage")

unfoldable pub marshal : Event → Result Wire
marshal e = do p ← payload_text e.payload; ok (of (record e { payload = p }))

unfoldable pub unmarshal : Wire → Result Event
unmarshal (of e) = ok e
unmarshal (broken x) = err x
