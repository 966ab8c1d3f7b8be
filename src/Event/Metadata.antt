-- ===== src/Event/Metadata.antt =====
-- encoding/json on map[string]string: json.Marshal of a map and json.Unmarshal into a nil map.
use event_streaming_and_audi.Prelude.{String, Option, ◌≡◌, refl, none, some, [], ◌∷◌}
use event_streaming_and_audi.Errors.{Result, ok, err, text, ◌>>=◌}
use event_streaming_and_audi.Event.{StringMap}
use event_streaming_and_audi.Event.Json.{Json, null, str, obj, Fields, end, field}

unfoldable pub fields_of : StringMap → Fields
fields_of [] = end
fields_of ((k, v) ∷ m) = field k (str v) (fields_of m)

unfoldable pub marshal_map : Option StringMap → Json
unfolding fields_of
marshal_map none = null
marshal_map (some m) = obj (fields_of m)

-- A null element is the empty text; any other value that is no string is refused.
abbrev element : Json → Result String
element (str s) = ok s
element null = ok ""
element _ = err (text "json: cannot unmarshal value into Go value of type string")

unfoldable pub map_of : Fields → Result StringMap
map_of end = ok []
map_of (field k v fs) = do s ← element v; m ← map_of fs; ok ((k, s) ∷ m)

unfoldable pub unmarshal_map : Json → Result (Option StringMap)
unfolding map_of
unmarshal_map null = ok none
unmarshal_map (obj fs) = do m ← map_of fs; ok (some m)
unmarshal_map _ = err (text "json: cannot unmarshal value into Go value of type map[string]string")

map_of-fields_of : (m : StringMap) → map_of (fields_of m) ≡ ok m
unfolding map_of fields_of
map_of-fields_of [] = refl
map_of-fields_of ((k, v) ∷ m) = rw (map_of-fields_of m)

pub unmarshal_map-marshal_map : (m : Option StringMap) → unmarshal_map (marshal_map m) ≡ ok m
unfolding unmarshal_map marshal_map
unmarshal_map-marshal_map none = refl
unmarshal_map-marshal_map (some m) = rw map_of-fields_of
