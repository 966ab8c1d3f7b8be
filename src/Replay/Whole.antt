-- ===== src/Replay/Whole.antt =====
-- A stream that one tenant owns is replayed whole.
use mathlib.Core.Path.{subst}
use event_streaming_and_audi.Prelude.{
  ℕ, ◌+◌, List, select, leb_ℤ, ◌≡◌, length, pos, suc, ◌<◌, ◌≤◌, two63, arith, none, Bool, [], ◌∷◌,
  int64_succ-pos, Bool-cases, All, refl, ap, leb, eq_iff, inl, leb→le, inr, some, ◌≢◌, true, false,
  ◌∙◌, String,
}
use event_streaming_and_audi.Postgres.Versions.{Ascends, IsWellFormed, stream_length}
use event_streaming_and_audi.Replay.{replay, Command, validate_after, validate_contiguous}
use event_streaming_and_audi.Postgres.{Row, event_store, Columns, Database, of_stream}
use event_streaming_and_audi.Event.{Event}
use event_streaming_and_audi.Postgres.Queries.{
  IsRead, AreRead, IsReadable, scan_rows-IsReadable, scan_rows-AreRead,
}
use event_streaming_and_audi.Auth.{Identity, Context, tenant_identity}
use event_streaming_and_audi.Replay.Stored.{wanted_by, wanted, get_from_version-wanted}
use event_streaming_and_audi.Errors.{ok}
use event_streaming_and_audi.Replay.Guards.{replay_iff}
use event_streaming_and_audi.Replay.Contiguous.{validate_contiguous_iff}

validate_after-AreRead :
    (n : ℕ) (r : Row) (e : Event) (rs : List Row) (es : List Event)
    → IsRead r e
    → r.version ≡ pos n
    → Ascends (suc n) rs
    → AreRead rs es
    → n + length rs < two63
    → validate_after e es ≡ none
unfolding validate_after
validate_after-AreRead n r e [] [] h v a k small = refl
validate_after-AreRead n r e [] (f ∷ fs) h v a k small = absurd k
validate_after-AreRead n r e (q ∷ qs) [] h v a k small = absurd k
validate_after-AreRead n r e (q ∷ qs) (f ∷ fs) h v (w, a) (k, ks) small =
    rw (h.version, v, k.version, w, int64_succ-pos n (omega arith))
      (ground (arith, validate_after-AreRead (suc n) q f qs fs k w a ks (omega arith)))

-- Events read from rows with consecutive versions have no gap.
pub validate_contiguous-AreRead :
    (n : ℕ) (rs : List Row) (es : List Event)
    → Ascends n rs
    → AreRead rs es
    → n + length rs < two63
    → validate_contiguous es ≡ none
unfolding validate_contiguous
validate_contiguous-AreRead n [] [] a k small = refl
validate_contiguous-AreRead n [] (f ∷ fs) a k small = absurd k
validate_contiguous-AreRead n (r ∷ rs) [] a k small = absurd k
validate_contiguous-AreRead n (r ∷ rs) (e ∷ es) (v, a) (k, ks) small =
    validate_after-AreRead n r e rs es k v a ks (omega arith)

abbrev pub from_on : ℕ → List Row → List Row
from_on k = select (λ r. leb_ℤ (pos k) r.version)

from_on-Ascends : (k n : ℕ) (rs : List Row) → k ≤ n → Ascends n rs → from_on k rs ≡ rs
from_on-Ascends k n [] le a = refl
from_on-Ascends k n (r ∷ rs) le (v, a) =
    let test : leb_ℤ (pos k) r.version ≡ true = ground arith in
    rw test (ap (λ qs. r ∷ qs) (from_on-Ascends k (suc n) rs (omega arith) a))

-- The rows from a version on are again consecutive.
Ascends-from_on :
    (k n : ℕ) (rs : List Row)
    → Ascends n rs
    → (m : ℕ) × Ascends m (from_on k rs) × (m + length (from_on k rs) ≤ n + length rs)
Ascends-from_on k n [] a = (n, tt, omega arith)
Ascends-from_on k n (r ∷ rs) (v, a) = elim (Bool-cases (leb k n)) [
  | inl all ↦ (
    n,
    rw (from_on-Ascends k n (r ∷ rs) (leb→le k n all) (v, a)) (v, a),
    rw (from_on-Ascends k n (r ∷ rs) (leb→le k n all) (v, a)) (omega arith),
  )
  | inr later ↦
      let test : leb_ℤ (pos k) r.version ≡ false = ground arith in
      let (m, rest, small) = Ascends-from_on k (suc n) rs a in
      (m, rw test rest, rw test (omega arith))
]

-- In a stream of one tenant the caller wants every row from the version on.
abbrev pub BelongTo : Identity → List Row → Type 0
BelongTo i = All (λ r. r.tenant_id ≡ i.tenant_id)

wanted_by-BelongTo :
    (i : Identity) (cmd : Command) (rs : List Row)
    → BelongTo i rs
    → select (wanted_by i cmd) rs ≡ select (λ r. leb_ℤ cmd.from_version r.version) rs
wanted_by-BelongTo i cmd [] h = refl
wanted_by-BelongTo i cmd (r ∷ rs) (own, h) =
    ground (arith, wanted_by-BelongTo i cmd rs h, eq_iff r.tenant_id i.tenant_id)

All-select {ℓ κ} :
    {A : Type ℓ} (P : A → Type κ) (q : A → Bool) (xs : List A) → All P xs → All P (select q xs)
All-select P q [] h = tt
All-select P q (x ∷ xs) (p, h) = elim (Bool-cases (q x)) [
  | inl kept ↦ rw kept (p, All-select P q xs h)
  | inr dropped ↦ rw dropped (All-select P q xs h)
]

abbrev pub command : String → ℕ → Command
command stream_id k = record { stream_id = stream_id; from_version = pos k }

-- If all rows of the stream belong to the caller's tenant, a replay answers with one event for each
-- row from the version on, in the order of insertion. The connection is up, the metadata columns are
-- readable, and the stream has fewer than 2^63 - 1 rows.
pub replay-whole :
    (c : Columns) (ctx : Context) (i : Identity) (s : String) (k : ℕ) (db : Database)
    → IsWellFormed db.rows
    → tenant_identity ctx ≡ some i
    → s ≢ ""
    → db.fault ≡ none
    → BelongTo i (select (of_stream s) db.rows)
    → All IsReadable (select (of_stream s) db.rows)
    → stream_length s db.rows + 1 < two63
    → (es : List Event) × (replay (event_store c) ctx (command s k) db ≡ ok es)
      × AreRead (from_on k (select (of_stream s) db.rows)) es
unfolding event_store
replay-whole c ctx i s k db wf known stream up own readable small =
    let cmd = command s k in
    let rows = select (of_stream s) db.rows in
    let same = wanted_by-BelongTo i cmd rows own in
    let (es, scanned) =
      scan_rows-IsReadable (wanted i cmd db)
        (All-select IsReadable (wanted_by i cmd) rows readable) in
    let read : AreRead (from_on k rows) es =
      subst (λ rs. AreRead rs es) same (scan_rows-AreRead (wanted i cmd db) es scanned) in
    let (m, climbs, short) = Ascends-from_on k 1 rows (wf s) in
    let answer = (replay_iff (event_store c) ctx cmd db es).1 (record {
      identity = i;
      known = known;
      stream = stream;
      from = ground arith;
      read = get_from_version-wanted ctx i cmd db wf known up ∙ scanned;
      whole =
          (validate_contiguous_iff es).0
            (validate_contiguous-AreRead m (from_on k rows) es climbs read (omega arith));
    }) in
    (es, answer, read)
