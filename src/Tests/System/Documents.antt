-- ===== src/Tests/System/Documents.antt =====
-- An index server that keeps every document it is sent, and searches by the clauses.
use mathlib.Core.Path.{subst}
use mathlib.Core.List.{Memᴰ}
use mathlib.Core.List.Memᴰ
use event_streaming_and_audi.Elasticsearch.{Client, SearchBody, SearchHits, Answer, unmarshal_all}
use event_streaming_and_audi.Elasticsearch.Isolation.{HonoursFilters, Satisfies, term_of}
use event_streaming_and_audi.Services.System.Consumption.{OnlyPuts}
use event_streaming_and_audi.Services.System.Reads.{OnlyFinds}
use event_streaming_and_audi.Errors.{Result, ok, Result-cases}
use event_streaming_and_audi.Event.{Event, Uuid}
use event_streaming_and_audi.Event.Wire.{Wire, of, broken, unmarshal}
use event_streaming_and_audi.Prelude.{
  String, List, Option, Bool, true, false, none, some, pos, ◌≡◌, ◌&&◌, ◌==◌, ◌∷◌, [], inl, inr,
  arith, ap, sym, All, if◌then◌else◌, eq_iff, Bool-cases,
}

abbrev equals : Option String → String → Bool
equals none v = false
equals (some x) v = x == v

abbrev passes : List (String × String) → Event → Bool
passes [] e = true
passes ((name, v) ∷ filters) e = equals (term_of name e) v && passes filters e

abbrev admits : List (String × String) → Wire → Bool
admits filters (of e) = passes filters e
admits filters (broken x) = false

abbrev hits_of : List (String × String) → List (Uuid × Wire) → List Wire
hits_of filters [] = []
hits_of filters ((id, w) ∷ ds) =
    if admits filters w then w ∷ hits_of filters ds else hits_of filters ds

abbrev found : List (String × String) → List (Uuid × Wire) → SearchHits
found filters ds = record { total = pos 0; sources = hits_of filters ds }

abbrev pub documents : Client (List (Uuid × Wire))
documents = record {
  exists = λ name ds. ok (record { status = 200; body = tt });
  create = λ name mapping ds. (ok (record { status = 400; body = "exists" }), ds);
  put = λ name id w ds. (ok (record { status = 201; body = "" }), (id, w) ∷ ds);
  search = λ name body ds. ok (record { status = 200; body = ok (found body.filters ds) });
}

abbrev pub Holds : List (Uuid × Wire) → Uuid → Wire → Type 0
Holds ds id w = Memᴰ (id, w) ds

pub documents-OnlyPuts : OnlyPuts documents Holds
documents-OnlyPuts = record {
  put = λ name id w ds k d m. elim (Memᴰ.cases_cons m) [
    | inl new ↦ inr (ap (λ (x : Uuid × Wire). x.0) new, ap (λ (x : Uuid × Wire). x.1) new)
    | inr old ↦ inl old
  ];
  created = λ name mapping ds k d m. m;
}

equals-some : (o : Option String) (v : String) → equals o v ≡ true → o ≡ some v
equals-some none v h = cc
equals-some (some x) v h = ap some ((eq_iff x v).0 h)

passes-Satisfies :
    (filters : List (String × String)) (e : Event) → passes filters e ≡ true → Satisfies filters e
passes-Satisfies [] e h = tt
passes-Satisfies ((name, v) ∷ filters) e h =
    (equals-some (term_of name e) v (ground arith), passes-Satisfies filters e (ground arith))

hits_of-held :
    (filters : List (String × String)) (ds : List (Uuid × Wire)) (w : Wire)
    → Memᴰ w (hits_of filters ds)
    → (id : Uuid) × Memᴰ (id, w) ds
hits_of-held filters [] w m = elim m [ ]
hits_of-held filters ((id, v) ∷ ds) w m = elim (Bool-cases (admits filters v)) [
  | inr refused ↦ let (k, h) = hits_of-held filters ds w (rw refused at m) in (k, Memᴰ.tail h)
  | inl passed ↦ elim (Memᴰ.cases_cons (rw passed at m)) [
    | inl same ↦ (id, Memᴰ.head (ap (λ (x : Wire). (id, x)) same))
    | inr late ↦ let (k, h) = hits_of-held filters ds w late in (k, Memᴰ.tail h)
  ]
]

unmarshalled-Satisfies :
    (filters : List (String × String)) (w : Wire) (ws : List Wire) (es : List Event)
    → admits filters w ≡ true
    → ((fs : List Event) → unmarshal_all ws ≡ ok fs → All (Satisfies filters) fs)
    → unmarshal_all (w ∷ ws) ≡ ok es
    → All (Satisfies filters) es
unfolding unmarshal_all unmarshal
unmarshalled-Satisfies filters (broken x) ws es p rest h = cc
unmarshalled-Satisfies filters (of e) ws es p rest h = elim (Result-cases (unmarshal_all ws)) [
  | inr (x, bad) ↦ cc (rw bad at h)
  | inl (fs, good) ↦
      let split : e ∷ fs ≡ es = ground arith in
      subst (All (Satisfies filters)) split (passes-Satisfies filters e p, rest fs good)
]

hits_of-Satisfies :
    (filters : List (String × String)) (ds : List (Uuid × Wire)) (es : List Event)
    → unmarshal_all (hits_of filters ds) ≡ ok es
    → All (Satisfies filters) es
unfolding unmarshal_all
hits_of-Satisfies filters [] es h =
    let none_left : [] ≡ es = ground arith in subst (All (Satisfies filters)) none_left tt
hits_of-Satisfies filters ((id, w) ∷ ds) es h = elim (Bool-cases (admits filters w)) [
  | inr refused ↦ hits_of-Satisfies filters ds es (rw refused at h)
  | inl passed ↦
      unmarshalled-Satisfies filters w (hits_of filters ds) es passed (hits_of-Satisfies filters ds)
        (rw passed at h)
]

-- What the answer of a search holds.
answered_with :
    (body : SearchBody) (ds : List (Uuid × Wire)) (r : Answer (Result SearchHits))
    (hits : SearchHits)
    → documents.search "" body ds ≡ ok r
    → r.body ≡ ok hits
    → hits_of body.filters ds ≡ hits.sources
answered_with body ds r hits h g =
    let same : found body.filters ds ≡ hits = cc in ap (λ (x : SearchHits). x.sources) same

pub documents-HonoursFilters : HonoursFilters documents
documents-HonoursFilters = record {
  honoured = λ name body ds r hits h g es k.
      hits_of-Satisfies body.filters ds es
        (subst (λ ws. unmarshal_all ws ≡ ok es) (sym (answered_with body ds r hits h g)) k);
}

pub documents-OnlyFinds : OnlyFinds documents Holds
documents-OnlyFinds name body ds r hits h g w m =
    hits_of-held body.filters ds w (subst (Memᴰ w) (sym (answered_with body ds r hits h g)) m)
