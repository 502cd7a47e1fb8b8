-- ===== src/Tracker/Synthetic/Invariant.antt =====
-- What every call of the Synthetic tracker keeps, whichever of its statements fail.
use loomwatch.Prelude.{
  ℕ, suc, ◌≡◌, refl, String, Bool, false, Option, none, some, List, ap, arith, string_eq,
  if◌then◌else◌,
}
use loomwatch.Store.Cycles.{
  ResetCycle, create_cycle, close_cycle, update_cycle, query_active_cycle, active_row,
}
use loomwatch.Store.Cycles.Rows.{active_row-close}
use loomwatch.Store.Cycles.Writes.{Writes, nothing, more, created, closed, updated}
use loomwatch.Tracker.Synthetic.{
  QuotaInfo, Slot, start_first, roll_over, same_cycle, process_found, process_quota, Snapshot,
  Tracker, Field, sub_field, search_field, tool_field, process_field, process, add_positive,
  cycle_end_time,
}

module _ (q : String) (captured_at : ℕ) (info : QuotaInfo) (s : Slot) where
  start_first-Writes :
      active_row q s.db.rows ≡ none
      → Writes q s.db.rows (start_first q captured_at info s).1.db.rows
  unfolding start_first create_cycle update_cycle
  start_first-Writes free =
      let none_yet : Writes q s.db.rows s.db.rows = nothing in
      let one = more none_yet (created s.db.next_id captured_at info.renews_at free refl) in
      ground (arith, none_yet, one, more one (updated info.requests 0 refl))

  roll_over-Writes :
      (has_last registered : Bool) (c : ResetCycle String ℕ)
      → Writes q s.db.rows (roll_over q captured_at info has_last registered c s).1.db.rows
  unfolding roll_over create_cycle update_cycle close_cycle
  roll_over-Writes has_last registered c =
      let end = cycle_end_time captured_at c.renews_at in
      let total =
        if has_last
        then add_positive c.total_delta s.last_requests info.requests
        else c.total_delta in
      let none_yet : Writes q s.db.rows s.db.rows = nothing in
      let one = more none_yet (closed end c.peak_requests total refl) in
      let two = more one (
        created s.db.next_id captured_at info.renews_at
          (active_row-close q end c.peak_requests total s.db.rows) refl) in
      ground (arith, none_yet, one, two, more two (updated info.requests 0 refl))

  same_cycle-Writes :
      (has_last : Bool) (c : ResetCycle String ℕ)
      → Writes q s.db.rows (same_cycle q info has_last c s).1.db.rows
  unfolding same_cycle update_cycle
  same_cycle-Writes has_last c =
      let none_yet : Writes q s.db.rows s.db.rows = nothing in
      let total = add_positive c.total_delta s.last_requests info.requests in
      ground (
        arith,
        none_yet,
        more none_yet (updated info.requests total refl),
        more none_yet (updated c.peak_requests total refl),
        more none_yet (updated info.requests c.total_delta refl),
      )

  process_found-Writes :
      (has_last registered : Bool) (found : Option (ResetCycle String ℕ))
      → active_row q s.db.rows ≡ found
      → Writes q s.db.rows (process_found q captured_at info has_last registered found s).1.db.rows
  unfolding process_found
  process_found-Writes has_last registered none free = start_first-Writes free
  process_found-Writes has_last registered (some c) h =
      ground (arith, roll_over-Writes has_last registered c, same_cycle-Writes has_last c)

-- All that a call does to the table is a sequence of writes for its quota: it creates a cycle only
-- where none is active, and otherwise ends or updates the active one.
pub process_quota-Writes :
    (q : String) (captured_at : ℕ) (info : QuotaInfo) (has_last registered : Bool) (s : Slot)
    → Writes q s.db.rows (process_quota q captured_at info has_last registered s).1.db.rows
unfolding process_quota query_active_cycle
process_quota-Writes q captured_at info has_last registered s =
    let s' = record s { db = record s.db { calls = suc s.db.calls } } in
    let unchanged : Writes q s.db.rows s.db.rows = nothing in
    ground (
      arith,
      unchanged,
      process_found-Writes q captured_at info s' has_last registered (active_row q s.db.rows) refl,
    )

-- The state in which `process_field` runs `processQuota`.
abbrev slot_of : Field → Tracker → Slot
slot_of f t = record { db = t.db; last_requests = f.get t; notified = t.notified }

-- A field of the tracker is not its store.
abbrev IsLastValue : Field → Type 0
IsLastValue f = (n : ℕ) (t : Tracker) → (f.put n t).db ≡ t.db

module _ (q : String) (captured_at : ℕ) (info : QuotaInfo) (f : Field) (t : Tracker) where
  process_field-rows :
      IsLastValue f
      → (process_field q captured_at info f t).1.db.rows
        ≡ (process_quota q captured_at info t.has_last_values t.on_reset (slot_of f t)).1.db.rows
  unfolding process_field
  process_field-rows keeps = ap (λ d. d.rows) (keeps _ _)

  process_field-Writes :
      IsLastValue f → Writes q t.db.rows (process_field q captured_at info f t).1.db.rows
  process_field-Writes keeps =
      rw (process_field-rows keeps)
        (process_quota-Writes q captured_at info t.has_last_values t.on_reset (slot_of f t))

-- A relation that every call of `processQuota` respects is respected by `Process`.
module _ (P : List (ResetCycle String ℕ) → List (ResetCycle String ℕ) → Type 0)
    (P_refl : (xs : List (ResetCycle String ℕ)) → P xs xs)
    (P_trans : (xs ys zs : List (ResetCycle String ℕ)) → P xs ys → P ys zs → P xs zs)
    (P_writes : (q : String) (xs ys : List (ResetCycle String ℕ)) → Writes q xs ys → P xs ys) where
  abbrev OnRows : Tracker → Tracker → Type 0
  OnRows t u = P t.db.rows u.db.rows

  field_respects :
      (q : String) (captured_at : ℕ) (info : QuotaInfo) (f : Field)
      → IsLastValue f
      → (t : Tracker) → OnRows t (process_field q captured_at info f t).1
  field_respects q captured_at info f keeps t =
      P_writes q _ _ (process_field-Writes q captured_at info f t keeps)

  pub process_respects : (snapshot : Snapshot) (t : Tracker) → OnRows t (process snapshot t).1
  unfolding process
  process_respects snapshot t =
      let at = snapshot.captured_at in
      let t₁ = (process_field "subscription" at snapshot.sub sub_field t).1 in
      let t₂ = (process_field "search" at snapshot.search search_field t₁).1 in
      let t₃ = (process_field "toolcall" at snapshot.tool_call tool_field t₂).1 in
      let one : OnRows t t₁ =
        field_respects "subscription" at snapshot.sub sub_field (λ n t. refl) t in
      let two : OnRows t₁ t₂ =
        field_respects "search" at snapshot.search search_field (λ n t. refl) t₁ in
      let three : OnRows t₂ t₃ =
        field_respects "toolcall" at snapshot.tool_call tool_field (λ n t. refl) t₂ in
      let one_two : OnRows t t₂ = P_trans _ _ _ one two in
      ground (arith, one, one_two, P_trans _ _ _ one_two three)

-- Where the query does not fail, the call goes on from the active cycle.
pub process_quota_found :
    (q : String) (captured_at : ℕ) (info : QuotaInfo) (has_last registered : Bool) (s : Slot)
    → s.db.fails s.db.calls ≡ false
    → process_quota q captured_at info has_last registered s
      ≡ process_found q captured_at info has_last registered
          (active_row q s.db.rows)
          (record s { db = record s.db { calls = suc s.db.calls } })
unfolding process_quota query_active_cycle
process_quota_found q captured_at info has_last registered s fine = ground (arith)
