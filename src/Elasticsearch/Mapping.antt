-- ===== src/Elasticsearch/Mapping.antt =====
-- The searches beside the mapping of the index.
use event_streaming_and_audi.Elasticsearch.{
  FieldType, keyword, long, date, dynamic, mapping, SearchBody, search_body, filters_of, sort_of,
}
use event_streaming_and_audi.Event.{SearchQuery}
use event_streaming_and_audi.Prelude.{
  String, List, Option, none, some, Bool, true, false, ◌≡◌, ◌==◌, [], ◌∷◌, refl, All, All-append,
  if◌then◌else◌, Bool-cases, inl, inr,
}

-- The type that the mapping gives a field.
abbrev type_in : String → List (String × FieldType) → Option FieldType
type_in name [] = none
type_in name ((field, t) ∷ fields) = if field == name then some t else type_in name fields

-- Elasticsearch sorts by the fields that are indexed as single values.
abbrev IsSortable : FieldType → Type 0
IsSortable dynamic = ⊥
IsSortable keyword = Unit
IsSortable long = Unit
IsSortable date = Unit

abbrev IsExact : String × String → Type 0
IsExact clause = type_in clause.0 mapping ≡ some keyword

abbrev IsOrdered : String × String → Type 0
IsOrdered key = (t : FieldType) × (type_in key.0 mapping ≡ some t) × IsSortable t

abbrev pub IsTyped : SearchBody → Type 0
IsTyped body = All IsExact body.filters × All IsOrdered body.sort

optional-IsExact :
    (name v : String)
    → type_in name mapping ≡ some keyword
    → All IsExact (if v == "" then [] else (name, v) ∷ [])
optional-IsExact name v h = elim (Bool-cases (v == "")) [
  | inl empty ↦ rw empty tt
  | inr filled ↦ rw filled (h, tt)
]

sort_of-IsOrdered : (desc : Bool) → All IsOrdered (sort_of desc)
unfolding sort_of
sort_of-IsOrdered true = ((date, refl, tt), ((keyword, refl, tt), tt))
sort_of-IsOrdered false = ((long, refl, tt), ((keyword, refl, tt), tt))

-- Whatever is searched for, every clause compares a field that the mapping of the index declares as a
-- keyword, which is compared whole, and every sort key is a declared field of a type with an order.
pub search_body-IsTyped : (q : SearchQuery) → IsTyped (search_body q)
unfolding search_body filters_of
search_body-IsTyped q = (
  All-append IsExact (if q.stream_id == "" then [] else ("stream_id", q.stream_id) ∷ [])
      (if q.tenant_id == "" then [] else ("tenant_id", q.tenant_id) ∷ [])
      (optional-IsExact "stream_id" q.stream_id refl)
      (optional-IsExact "tenant_id" q.tenant_id refl),
  sort_of-IsOrdered q.sort_by_occurred_at_desc,
)
