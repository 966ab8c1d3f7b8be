-- ===== src/Replay/Gaps.antt =====
-- A stream that several tenants write to: the versions are counted for the stream and the query
-- filters by tenant, so that what a tenant reads may have gaps that are no loss of data.
use mathlib.Core.Path.{subst}
use mathlib.Core.Option.{some-injective}
use event_streaming_and_audi.Prelude.{
  ℕ, ◌+◌, int64_succ, List, pos, ◌≡◌, ◌≤◌, ◌++◌, arith, ◌∷◌, ◌<◌, suc, [], some, select, true, ◌≢◌,
  false, sym, refl, eq_iff, ◌∙◌, ap, select-append, inl, inr,
}
use event_streaming_and_audi.Replay.{replay, Command}
use event_streaming_and_audi.Postgres.{Row, Columns, Database, of_stream, event_store}
use event_streaming_and_audi.Postgres.Versions.{Ascends, IsWellFormed}
use event_streaming_and_audi.Event.{Event}
use event_streaming_and_audi.Auth.{Context, Identity, tenant_identity}
use event_streaming_and_audi.Postgres.Queries.{AreRead, Climbs, Climbs-select}
use event_streaming_and_audi.Replay.Contiguous.{HasNoGap, HasNoGap-tail}
use event_streaming_and_audi.Replay.Stored.{wanted_by, replay-ok, wanted}
use event_streaming_and_audi.Errors.{ok, Error, err, Result-cases}

-- The version after `k`, wrapped or not, is at most k + 1.
int64_succ-le : (k m : ℕ) → pos m ≡ int64_succ (pos k) → m ≤ k + 1
unfolding int64_succ
int64_succ-le k m h = ground arith

-- Events read from rows with a jump between two versions have a gap.
jump-HasGap :
    (k m : ℕ) (before : List Row) (a b : Row) (later : List Row) (es : List Event)
    → AreRead (before ++ a ∷ b ∷ later) es
    → a.version ≡ pos k
    → b.version ≡ pos m
    → k + 1 < m
    → ¬ HasNoGap es
jump-HasGap k m [] a b later [] read va vb far whole = absurd read
jump-HasGap k m [] a b later (e ∷ []) (_, read) va vb far whole = absurd read
jump-HasGap k m [] a b later (e ∷ f ∷ es) (first, (second, _)) va vb far whole =
    let step = whole 0 e f refl refl in
    let bound = int64_succ-le k m (cc (first.version, second.version)) in absurd (omega arith)
jump-HasGap k m (r ∷ before) a b later [] read va vb far whole = absurd read
jump-HasGap k m (r ∷ before) a b later (e ∷ es) (_, read) va vb far whole =
    jump-HasGap k m before a b later es read va vb far (HasNoGap-tail e es whole)

Ascends-drop : (n : ℕ) (xs ys : List Row) → Ascends n (xs ++ ys) → (m : ℕ) × Ascends m ys
Ascends-drop n [] ys a = (n, a)
Ascends-drop n (x ∷ xs) ys (v, a) = Ascends-drop (suc n) xs ys a

keeps :
    (i : Identity) (cmd : Command) (a x b : Row) (after later : List Row)
    → wanted_by i cmd a ≡ true
    → x.tenant_id ≢ i.tenant_id
    → select (wanted_by i cmd) after ≡ b ∷ later
    → select (wanted_by i cmd) (a ∷ x ∷ after) ≡ a ∷ b ∷ later
keeps i cmd a x b after later kept foreign more =
    let dropped : wanted_by i cmd x ≡ false = ground (arith, eq_iff x.tenant_id i.tenant_id) in
    rw (kept, dropped, more)

replay-jump :
    (c : Columns) (ctx : Context) (i : Identity) (cmd : Command) (db : Database)
    (before after later : List Row) (a x b : Row)
    → IsWellFormed db.rows
    → tenant_identity ctx ≡ some i
    → select (of_stream cmd.stream_id) db.rows ≡ before ++ a ∷ x ∷ after
    → wanted_by i cmd a ≡ true
    → x.tenant_id ≢ i.tenant_id
    → select (wanted_by i cmd) after ≡ b ∷ later
    → (es : List Event) → replay (event_store c) ctx cmd db ≢ ok es
replay-jump c ctx i cmd db before after later a x b wf known own kept foreign more es h =
    let (j, known', read, whole) = replay-ok c ctx cmd db es wf h in
    let same : i ≡ j = some-injective i j (sym known ∙ known') in
    let (k, versions) =
      Ascends-drop 1 before (a ∷ x ∷ after) (subst (Ascends 1) own (wf cmd.stream_id)) in
    let climbs =
      subst (Climbs (suc (suc k))) more
        (Climbs-select (wanted_by i cmd) (suc (suc k)) after versions.1.1) in
    let read' = subst (λ t. AreRead (wanted t cmd db) es) (sym same) read in
    jump-HasGap k climbs.0 (select (wanted_by i cmd) before) a b later es
      (subst (λ rs. AreRead rs es)
        (ap (select (wanted_by i cmd)) own
          ∙ select-append (wanted_by i cmd) before (a ∷ x ∷ after)
          ∙ ap (λ rs. select (wanted_by i cmd) before ++ rs)
              (keeps i cmd a x b after later kept foreign more))
        read')
      versions.0 climbs.1 (omega arith) whole

-- In a table whose streams have no gap: if another tenant's row follows a row of the stream that the
-- caller wants, and a later one is wanted too, the replay fails, though no row is missing.
pub replay-gap :
    (c : Columns) (ctx : Context) (i : Identity) (cmd : Command) (db : Database)
    (before after later : List Row) (a x b : Row)
    → IsWellFormed db.rows
    → tenant_identity ctx ≡ some i
    → select (of_stream cmd.stream_id) db.rows ≡ before ++ a ∷ x ∷ after
    → wanted_by i cmd a ≡ true
    → x.tenant_id ≢ i.tenant_id
    → select (wanted_by i cmd) after ≡ b ∷ later
    → (e : Error) × (replay (event_store c) ctx cmd db ≡ err e)
replay-gap c ctx i cmd db before after later a x b wf known own kept foreign more =
    elim (Result-cases (replay (event_store c) ctx cmd db)) [
      | inl (es, answered) ↦ absurd (
          replay-jump c ctx i cmd db before after later a x b wf known own kept foreign more es
            answered)
      | inr failed ↦ failed
    ]
