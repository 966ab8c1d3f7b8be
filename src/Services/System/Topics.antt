-- ===== src/Services/System/Topics.antt =====
-- What the topics hold, and the texts of stored events.
use mathlib.Core.List.{Memᴰ}
use mathlib.Core.List.Memᴰ
use event_streaming_and_audi.Services.System.Consumption.{marshal-encoded}
use event_streaming_and_audi.Event.{Event}
use event_streaming_and_audi.Event.Wire.{Wire, of, marshal}
use event_streaming_and_audi.Errors.{ok}
use event_streaming_and_audi.Kafka.Producer.{Writer, KafkaMessage}
use event_streaming_and_audi.Postgres.{Columns, Row}
use event_streaming_and_audi.Postgres.Contents.{IsStored, Extends, IsStored-Extends}
use event_streaming_and_audi.Prelude.{String, List, ◌≡◌, ◌⊎◌, inl, inr, ◌++◌, ◌∷◌}

-- Kafka: a write may add its message, once or more often, to its topic, whatever it answers, and
-- nothing else. `log` is what a topic holds.
pub record OnlyWrites {P : Type 0} (writer : Writer Wire P) (log : P → String → List Wire)
    : Type 0 where
  pub written :
      (m : KafkaMessage Wire) (p : P) (t : String) (w : Wire)
      → Memᴰ w (log (writer.write_messages m p).1 t)
      → Memᴰ w (log p t) ⊎ ((t ≡ m.topic) × (w ≡ m.value))

-- The text of an event that is in the table.
abbrev pub IsText : Columns → List Row → Wire → Type 0
IsText c rows w = (e : Event) × (w ≡ of e) × IsStored c rows e

pub IsText-Extends :
    (c : Columns) (rows rows' : List Row) (w : Wire)
    → Extends rows rows'
    → IsText c rows w
    → IsText c rows' w
IsText-Extends c rows rows' w more (e, text, kept) =
    (e, text, IsStored-Extends c rows rows' e more kept)

pub marshal-IsStored :
    (c : Columns) (rows : List Row) (e : Event) → IsStored c rows e → marshal e ≡ ok (of e)
marshal-IsStored c rows e (r, m, kept) = marshal-encoded e kept.payload kept.payload_text

-- One event fewer of the list.
pub Memᴰ-without :
    {A : Type 0} {x : A} (before : List A) (y : A) (after : List A)
    → Memᴰ x (before ++ after)
    → Memᴰ x (before ++ y ∷ after)
Memᴰ-without before y after m = elim (Memᴰ.append_cases before m) [
  | inl early ↦ Memᴰ.append_left (y ∷ after) early
  | inr late ↦ Memᴰ.append_right before (Memᴰ.tail late)
]
