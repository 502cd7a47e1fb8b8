-- ===== src/Tracker/Synthetic/History.antt =====
-- The cycle table of the Synthetic tracker over its whole history.
use loomwatch.Prelude.{ℕ, ◌≡◌, String, Bool, false, List, [], ◌∷◌, ◌==◌, string_eq}
use loomwatch.Store.Cycles.{rows_of}
use loomwatch.Store.Cycles.Kept.{KeepsClosed, KeepsClosed-refl, KeepsClosed-trans}
use loomwatch.Store.Cycles.Writes.{
  AtMostOneActive, Writes-AtMostOneActive, Writes-KeepsClosed, Writes-rows_of,
}
use loomwatch.Tracker.Synthetic.{QuotaInfo, Slot, Snapshot, Tracker, process_quota, process, run}
use loomwatch.Tracker.Synthetic.Invariant.{process_quota-Writes, process_respects}

process-AtMostOneActive :
    (snapshot : Snapshot) (t : Tracker)
    → AtMostOneActive t.db.rows
    → AtMostOneActive (process snapshot t).1.db.rows
process-AtMostOneActive snapshot t =
    process_respects (λ xs ys. AtMostOneActive xs → AtMostOneActive ys) (λ xs h. h)
      (λ xs ys zs f g h. g (f h)) (λ q xs ys w. Writes-AtMostOneActive q w) snapshot t

process-KeepsClosed :
    (snapshot : Snapshot) (t : Tracker) → KeepsClosed t.db.rows (process snapshot t).1.db.rows
process-KeepsClosed snapshot t =
    process_respects KeepsClosed KeepsClosed-refl KeepsClosed-trans
      (λ q xs ys w. Writes-KeepsClosed q w) snapshot t

-- Over any sequence of snapshots, also when statements of the store fail, no quota ever has two
-- active cycles if none had at the start.
pub run-AtMostOneActive :
    (snapshots : List Snapshot) (t : Tracker)
    → AtMostOneActive t.db.rows
    → AtMostOneActive (run snapshots t).db.rows
unfolding run
run-AtMostOneActive [] t h = h
run-AtMostOneActive (s ∷ rest) t h =
    run-AtMostOneActive rest (process s t).1 (process-AtMostOneActive s t h)

-- Over any sequence of snapshots, also when statements of the store fail, a completed cycle stays
-- in the table at its place, with its start, end, peak and delta as they were.
pub run-KeepsClosed :
    (snapshots : List Snapshot) (t : Tracker) → KeepsClosed t.db.rows (run snapshots t).db.rows
unfolding run
run-KeepsClosed [] t = KeepsClosed-refl t.db.rows
run-KeepsClosed (s ∷ rest) t =
    KeepsClosed-trans t.db.rows _ _ (process-KeepsClosed s t) (run-KeepsClosed rest (process s t).1)

-- A call for one quota changes no row of another quota, whatever statements fail.
pub process_quota-rows_of :
    (q k : String) (captured_at : ℕ) (info : QuotaInfo) (has_last registered : Bool) (s : Slot)
    → (q == k) ≡ false
    → rows_of k (process_quota q captured_at info has_last registered s).1.db.rows
      ≡ rows_of k s.db.rows
process_quota-rows_of q k captured_at info has_last registered s =
    Writes-rows_of q k (process_quota-Writes q captured_at info has_last registered s)
