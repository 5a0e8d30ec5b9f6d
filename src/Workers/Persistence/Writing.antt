-- ===== src/Workers/Persistence/Writing.antt =====
-- workers/persistence_worker.py: a batch is written kind by kind. The repository is an argument: which
-- methods it has, and what a call of one gives after the records that it has saved. The counters of one
-- kind, which the source adds to those of the batch, are kept in those of the batch.
use fdv.Base.{
  ℕ, ◌+◌, String, str_append, Bool, true, false, Option, none, some, List, [], ◌∷◌, ◌++◌, length,
  filter_by, get_or, is_none, ltb, string_eq, if◌then◌else◌,
}
use fdv.Base.Dict.{Dict, lookup, insert}
use fdv.Workers.Persistence.{
  Kind, audit, market, account, orderbook, order, fill, position, allocation, outbox, kind_text,
  same_kind, PlannedRecord,
}

-- `save` is given the records saved so far, the method and its argument; it raises an error with a
-- text, or saves them all.
pub record Repository : Type 0 where
  pub has : String → Bool
  pub save : List PlannedRecord → String → List PlannedRecord → Option String

-- The many and the single method of a kind.
abbrev pub method_names : Kind → String × String
method_names audit = ("save_audit_events", "save_audit_event")
method_names market = ("save_market_snapshots", "save_market_snapshot")
method_names account = ("save_account_snapshots", "save_account_snapshot")
method_names orderbook = ("save_orderbook_snapshots", "save_orderbook_snapshot")
method_names order = ("save_orders", "save_order")
method_names fill = ("save_fills", "save_fill")
method_names position = ("save_positions", "save_position")
method_names allocation = ("save_allocations", "save_allocation")
method_names outbox = ("save_outbox_events", "save_outbox_event")

abbrev pub first_method : Repository → String → String → Option String
first_method r preferred fallback =
    if r.has preferred then some preferred else if r.has fallback then some fallback else none

-- `_select_repository_method`
unfoldable pub select_repository_method : Repository → Kind → Bool → Option String
select_repository_method r k batch =
    let (many, single) = method_names k in
    if batch then first_method r many single else first_method r single many

-- A batch being written: what the repository has saved, and the counters. A kind of which nothing was
-- written has no route count, where the source has a 0.
pub record Written : Type 0 where
  pub saved : List PlannedRecord
  pub success : Dict String ℕ
  pub failed : Dict String String
  pub route_counts : Dict String ℕ

abbrev pub count_of : String → Dict String ℕ → ℕ
count_of id d = get_or (lookup id d) 0

-- `counts[key] += n`
abbrev pub add_count : String → ℕ → Dict String ℕ → Dict String ℕ
add_count key n d = insert key (count_of key d + n) d

-- `failed.setdefault(key, message)`
abbrev pub set_default : String → String → Dict String String → Dict String String
set_default key message d = if is_none (lookup key d) then insert key message d else d

-- `_success_map`, added to the counters.
unfoldable pub count_all : List PlannedRecord → Dict String ℕ → Dict String ℕ
count_all [] d = d
count_all (p ∷ ps) d = count_all ps (add_count p.event.event_id 1 d)

unfoldable pub fail_one : Written → PlannedRecord → String → Written
fail_one w p message = record w { failed = set_default p.event.event_id message w.failed }

unfoldable pub succeed_one : Written → PlannedRecord → Written
succeed_one w p = record w {
  saved = w.saved ++ p ∷ [];
  success = add_count p.event.event_id 1 w.success;
  route_counts = add_count (kind_text p.kind) 1 w.route_counts;
}

abbrev pub after_save : Written → PlannedRecord → Option String → Written
after_save w p none = succeed_one w p
after_save w p (some error) =
    fail_one w p (str_append (kind_text p.kind) (str_append " write failed: " error))

-- A record by itself, with the single method of its kind or the many one; the list of it stands for the
-- record that a single method takes.
unfoldable pub write_one : Repository → Option String → Written → PlannedRecord → Written
unfolding fail_one succeed_one
write_one r none w p =
    fail_one w p (str_append "missing repository method for kind=" (kind_text p.kind))
write_one r (some method) w p = after_save w p (r.save w.saved method (p ∷ []))

unfoldable pub write_singles : Repository → Option String → Written → List PlannedRecord → Written
unfolding write_one
write_singles r method w [] = w
write_singles r method w (p ∷ ps) = write_singles r method (write_one r method w p) ps

unfoldable pub write_many : Kind → Written → List PlannedRecord → Written
unfolding count_all
write_many k w ps = record w {
  saved = w.saved ++ ps;
  success = count_all ps w.success;
  route_counts = add_count (kind_text k) (length ps) w.route_counts;
}

-- After the call with all the records: what it raises is logged, and the records go one by one.
abbrev pub after_batch :
    Repository → Kind → Option String → Written → List PlannedRecord → Option String → Written
after_batch r k single w ps none = write_many k w ps
after_batch r k single w ps (some error) = write_singles r single w ps

unfoldable pub write_with :
    Repository → Kind → Option String → Option String → Written → List PlannedRecord → Written
unfolding write_singles write_many
write_with r k none single w ps = write_singles r single w ps
write_with r k (some batch) single w ps =
    if ltb 1 (length ps)
    then after_batch r k single w ps (r.save w.saved batch ps)
    else write_singles r single w ps

-- `_write_kind`
unfoldable pub write_kind : Repository → Kind → Written → List PlannedRecord → Written
unfolding write_with select_repository_method
write_kind r k w ps =
    write_with r k (select_repository_method r k true) (select_repository_method r k false) w ps

abbrev pub route_order : List Kind
route_order = audit ∷ market ∷ orderbook ∷ order ∷ fill ∷ position ∷ allocation ∷ outbox ∷ []

abbrev pub of_that_kind : Kind → List PlannedRecord → List PlannedRecord
of_that_kind k = filter_by (λ p. same_kind p.kind k)

-- A kind without records is passed over.
unfoldable pub write_items : Repository → Kind → Written → List PlannedRecord → Written
unfolding write_kind
write_items r k w [] = w
write_items r k w (p ∷ ps) = write_kind r k w (p ∷ ps)

-- The loop over the kinds.
unfoldable pub write_kinds : Repository → List Kind → Written → List PlannedRecord → Written
unfolding write_items
write_kinds r [] w planned = w
write_kinds r (k ∷ ks) w planned =
    write_kinds r ks (write_items r k w (of_that_kind k planned)) planned

-- `_persist_batch` up to its outcomes.
unfoldable pub write_batch : Repository → List PlannedRecord → List PlannedRecord → Written
unfolding write_kinds
write_batch r saved planned =
    write_kinds r route_order
      (record { saved = saved; success = []; failed = []; route_counts = [] }) planned
