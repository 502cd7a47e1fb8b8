-- ===== src/Store/UsageSessions.antt =====
-- The `sessions` table of internal/store/store.go. Values (float64 in the code) are numbers of a
-- fixed unit, as in the trackers. The schedule `fails` says which statements the driver refuses;
-- an insert of an id that is there already fails by the table's primary key.
use loomwatch.Prelude.{
  ℕ, zero, suc, ◌≡◌, refl, String, Bool, false, ◌||◌, Option, none, some, List, [], ◌∷◌, ◌++◌,
  arith, ok, err, Action, ◌==◌, string_eq, ltb, if◌then◌else◌, update_if,
}
use loomwatch.Store.Cycles.{DbError, db_error}

-- `type Session struct`, with the table's provider.
pub record Session : Type 0 where
  pub id : String
  pub provider : String
  pub started_at : ℕ
  pub ended_at : Option ℕ
  pub poll_interval : ℕ
  pub max_sub_requests : ℕ
  pub max_search_requests : ℕ
  pub max_tool_requests : ℕ
  pub start_sub_requests : ℕ
  pub start_search_requests : ℕ
  pub start_tool_requests : ℕ
  pub snapshot_count : ℕ

pub record SessionDb : Type 0 where
  pub rows : List Session
  pub calls : ℕ
  pub fails : ℕ → Bool

-- `len(values) > i`, then `values[i]`, else 0.
abbrev pub value_at : ℕ → List ℕ → ℕ
value_at i [] = 0
value_at zero (v ∷ vs) = v
value_at (suc i) (v ∷ vs) = value_at i vs

abbrev pub has_id : String → List Session → Bool
has_id id [] = false
has_id id (r ∷ rows) = r.id == id || has_id id rows

-- The row that `CreateSession` inserts.
unfoldable pub new_session : String → ℕ → ℕ → String → List ℕ → Session
new_session id started interval provider starts = record {
  id = id;
  provider = if provider == "" then "synthetic" else provider;
  started_at = started;
  ended_at = none;
  poll_interval = interval;
  max_sub_requests = 0;
  max_search_requests = 0;
  max_tool_requests = 0;
  start_sub_requests = value_at 0 starts;
  start_search_requests = value_at 1 starts;
  start_tool_requests = value_at 2 starts;
  snapshot_count = 0;
}

-- `CreateSession`
unfoldable pub create_session :
    String → ℕ → ℕ → String → List ℕ → Action DbError SessionDb (Unit {0})
create_session id started interval provider starts d =
    let failed = d.fails d.calls || has_id id d.rows in
    let d' = record d { calls = suc d.calls } in
    if failed then (err db_error, d') else (
      ok tt,
      record d' { rows = d.rows ++ new_session id started interval provider starts ∷ [] },
    )

-- An `UPDATE … WHERE id = ?`.
abbrev pub update_session : String → (Session → Session) → Action DbError SessionDb (Unit {0})
update_session id f d =
    let failed = d.fails d.calls in
    let d' = record d { calls = suc d.calls } in
    if failed
    then (err db_error, d')
    else (ok tt, record d' { rows = update_if (λ r. r.id == id) f d.rows })

abbrev pub ended : ℕ → Session → Session
ended end r = record r { ended_at = some end }

abbrev pub raise : ℕ → ℕ → ℕ
raise old new = if ltb old new then new else old

abbrev pub raised : ℕ → ℕ → ℕ → Session → Session
raised sub search tool r = record r {
  max_sub_requests = raise r.max_sub_requests sub;
  max_search_requests = raise r.max_search_requests search;
  max_tool_requests = raise r.max_tool_requests tool;
}

abbrev pub counted : Session → Session
counted r = record r { snapshot_count = suc r.snapshot_count }

-- `CloseSession`
unfoldable pub close_session : String → ℕ → Action DbError SessionDb (Unit {0})
close_session id end = update_session id (ended end)

-- `UpdateSessionMaxRequests`
unfoldable pub update_session_max_requests :
    String → ℕ → ℕ → ℕ → Action DbError SessionDb (Unit {0})
update_session_max_requests id sub search tool = update_session id (raised sub search tool)

-- `IncrementSnapshotCount`
unfoldable pub increment_snapshot_count : String → Action DbError SessionDb (Unit {0})
increment_snapshot_count id = update_session id counted

-- An update by id changes the one row that has it, here the last.
pub update_last :
    (id : String) (f : Session → Session) (older : List Session) (r : Session)
    → has_id id older ≡ false
    → r.id ≡ id
    → update_if (λ r. r.id == id) f (older ++ r ∷ []) ≡ older ++ f r ∷ []
update_last id f [] r absent same = ground (arith, string_eq.matches_iff r.id id)
update_last id f (o ∷ older) r absent same = ground (arith, update_last id f older r)

pub has_id-append :
    (id : String) (xs ys : List Session) → has_id id (xs ++ ys) ≡ (has_id id xs || has_id id ys)
has_id-append id [] ys = refl
has_id-append id (x ∷ xs) ys = ground (arith, has_id-append id xs ys)
