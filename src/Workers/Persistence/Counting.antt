-- ===== src/Workers/Persistence/Counting.antt =====
-- workers/persistence_worker.py: how the counters of a batch compare with what an event needs.
use fdv.Base.{
  arith, ◌≡◌, inl, inr, ℕ, ◌+◌, ◌≤◌, String, true, false, Option, none, some, List, [], ◌∷◌, length,
  filter_by, ltb, ◌==◌, string_eq, if◌then◌else◌, Bool-cases,
}
use fdv.Base.Dict.{Dict, lookup-insert}
use fdv.Workers.Persistence.{
  Kind, audit, market, account, orderbook, order, fill, position, allocation, outbox, same_kind,
  PlannedRecord,
}
use fdv.Workers.Persistence.Writing.{
  Repository, Written, count_of, add_count, count_all, fail_one, succeed_one, after_save, write_one,
  write_singles, write_many, after_batch, write_with, write_kind, route_order, of_that_kind,
  write_items, write_kinds, select_repository_method,
}

-- The records of an event.
abbrev pub matching : String → List PlannedRecord → List PlannedRecord
matching id = filter_by (λ p. p.event.event_id == id)

add_count-count :
    (key id : String) (n : ℕ) (d : Dict String ℕ)
    → count_of id (add_count key n d) ≡ (if key == id then count_of key d + n else count_of id d)
add_count-count key id n d = ground (arith, lookup-insert key id (count_of key d + n) d)

count_one :
    (p : PlannedRecord) (id : String) (d : Dict String ℕ)
    → count_of id (add_count p.event.event_id 1 d) ≡ count_of id d + length (matching id (p ∷ []))
count_one p id d =
    ground (arith, add_count-count p.event.event_id id 1 d, string_eq.same_iff p.event.event_id id)

pub length-matching :
    (id : String) (p : PlannedRecord) (ps : List PlannedRecord)
    → length (matching id (p ∷ ps)) ≡ length (matching id (p ∷ [])) + length (matching id ps)
length-matching id p ps = ground arith

count_all-count :
    (id : String) (ps : List PlannedRecord) (d : Dict String ℕ)
    → count_of id (count_all ps d) ≡ count_of id d + length (matching id ps)
unfolding count_all
count_all-count id [] d = omega arith
count_all-count id (p ∷ ps) d = omega (
  arith,
  count_all-count id ps (add_count p.event.event_id 1 d),
  count_one p id d,
  length-matching id p ps,
)

-- The records of an event with one of the kinds, a kind counted as often as it stands there.
abbrev pub routed : String → List Kind → List PlannedRecord → ℕ
routed id [] planned = 0
routed id (k ∷ ks) planned = length (matching id (of_that_kind k planned)) + routed id ks planned

module _ (r : Repository) (id : String) where
  after_save-count :
      (w : Written) (p : PlannedRecord) (o : Option String)
      → count_of id (after_save w p o).success
        ≤ count_of id w.success + length (matching id (p ∷ []))
  unfolding succeed_one fail_one
  after_save-count w p none = omega (arith, count_one p id w.success)
  after_save-count w p (some error) = omega arith

  write_one-count :
      (method : Option String) (w : Written) (p : PlannedRecord)
      → count_of id (write_one r method w p).success
        ≤ count_of id w.success + length (matching id (p ∷ []))
  unfolding write_one fail_one
  write_one-count none w p = omega arith
  write_one-count (some method) w p = after_save-count w p (r.save w.saved method (p ∷ []))

  write_singles-count :
      (method : Option String) (w : Written) (ps : List PlannedRecord)
      → count_of id (write_singles r method w ps).success
        ≤ count_of id w.success + length (matching id ps)
  unfolding write_singles
  write_singles-count method w [] = omega arith
  write_singles-count method w (p ∷ ps) = omega (
    arith,
    write_singles-count method (write_one r method w p) ps,
    write_one-count method w p,
    length-matching id p ps,
  )

  after_batch-count :
      (k : Kind) (single : Option String) (w : Written) (ps : List PlannedRecord)
      (o : Option String)
      → count_of id (after_batch r k single w ps o).success
        ≤ count_of id w.success + length (matching id ps)
  unfolding write_many
  after_batch-count k single w ps none = omega (arith, count_all-count id ps w.success)
  after_batch-count k single w ps (some error) = write_singles-count single w ps

  write_with-count :
      (k : Kind) (batch single : Option String) (w : Written) (ps : List PlannedRecord)
      → count_of id (write_with r k batch single w ps).success
        ≤ count_of id w.success + length (matching id ps)
  unfolding write_with
  write_with-count k none single w ps = write_singles-count single w ps
  write_with-count k (some batch) single w ps = elim (Bool-cases (ltb 1 (length ps))) [
    | inl q ↦ rw q (after_batch-count k single w ps (r.save w.saved batch ps))
    | inr q ↦ rw q (write_singles-count single w ps)
  ]

  write_items-count :
      (k : Kind) (w : Written) (ps : List PlannedRecord)
      → count_of id (write_items r k w ps).success ≤ count_of id w.success + length (matching id ps)
  unfolding write_items write_kind
  write_items-count k w [] = omega arith
  write_items-count k w (p ∷ ps) =
      write_with-count k (select_repository_method r k true) (select_repository_method r k false) w
        (p ∷ ps)

  pub write_kinds-count :
      (ks : List Kind) (w : Written) (planned : List PlannedRecord)
      → count_of id (write_kinds r ks w planned).success
        ≤ count_of id w.success + routed id ks planned
  unfolding write_kinds
  write_kinds-count [] w planned = omega arith
  write_kinds-count (k ∷ ks) w planned =
      let items = of_that_kind k planned in
      omega
        (arith, write_kinds-count ks (write_items r k w items) planned, write_items-count k w items)

-- One more record of a kind.
abbrev counted : Kind → Kind → ℕ → ℕ
counted k j n = if same_kind k j then n else 0

of_that_kind-step :
    (k : Kind) (id : String) (p : PlannedRecord) (ps : List PlannedRecord)
    → length (matching id (of_that_kind k (p ∷ ps)))
      ≡ counted p.kind k (length (matching id (p ∷ []))) + length (matching id (of_that_kind k ps))
of_that_kind-step k id p ps = ground arith

counted_once :
    (k : Kind) (n : ℕ)
    → counted k audit n
        + counted k market n
        + counted k orderbook n
        + counted k order n
        + counted k fill n
        + counted k position n
        + counted k allocation n
        + counted k outbox n
        + counted k account n
      ≡ n
counted_once audit n = omega arith
counted_once market n = omega arith
counted_once account n = omega arith
counted_once orderbook n = omega arith
counted_once order n = omega arith
counted_once fill n = omega arith
counted_once position n = omega arith
counted_once allocation n = omega arith
counted_once outbox n = omega arith

-- The kinds of the route order are all kinds but that of the accounts.
pub routed-total :
    (id : String) (ps : List PlannedRecord)
    → routed id route_order ps + length (matching id (of_that_kind account ps))
      ≡ length (matching id ps)
routed-total id [] = omega arith
routed-total id (p ∷ ps) = omega (
  arith,
  routed-total id ps,
  length-matching id p ps,
  counted_once p.kind (length (matching id (p ∷ []))),
  of_that_kind-step audit id p ps,
  of_that_kind-step market id p ps,
  of_that_kind-step orderbook id p ps,
  of_that_kind-step order id p ps,
  of_that_kind-step fill id p ps,
  of_that_kind-step position id p ps,
  of_that_kind-step allocation id p ps,
  of_that_kind-step outbox id p ps,
  of_that_kind-step account id p ps,
)
