-- ===== src/Workers/Persistence.antt =====
-- src/polymarket_trader/workers/persistence_records.py and persistence_worker.py: how outbox events
-- become records of the database. What a payload holds for each kind of record is an argument, since the
-- outbox carries it as text; the fields of a record stand as one text.
pub mod Writing
pub mod Finishing
pub mod Counting
pub mod Planning
pub mod Saving
pub mod Outcomes
pub mod Keeping
pub mod Merging
pub mod Acknowledged
use fdv.Base.{
  ℕ, suc, String, str_append, Bool, true, false, ◌&&◌, ◌||◌, Option, none, some, List, [], ◌∷◌,
  ◌++◌, length, map, any_by, ltb, leb, nat_beq, ◌==◌, string_eq, if◌then◌else◌, is_none, truthy,
  text_or,
}
use fdv.Base.Dict.{Dict, lookup, insert, values}
use fdv.Outbox.{OutboxEvent, is_critical, merge_key, merge_text, text_leb}

pub data Kind : Type 0 where
  audit market account orderbook order fill position allocation outbox : Kind

abbrev pub kind_number : Kind → ℕ
kind_number audit = 0
kind_number market = 1
kind_number account = 2
kind_number orderbook = 3
kind_number order = 4
kind_number fill = 5
kind_number position = 6
kind_number allocation = 7
kind_number outbox = 8

abbrev pub kind_text : Kind → String
kind_text audit = "audit"
kind_text market = "market"
kind_text account = "account"
kind_text orderbook = "orderbook"
kind_text order = "order"
kind_text fill = "fill"
kind_text position = "position"
kind_text allocation = "allocation"
kind_text outbox = "outbox"

abbrev pub same_kind : Kind → Kind → Bool
same_kind a b = nat_beq (kind_number a) (kind_number b)

-- What the builders of the records find in a payload.
pub record PayloadParts : Type 0 where
  pub audit_record : String
  pub allocation_records : List String
  pub market_record : Option String
  pub account_record : String
  pub orderbook_record : Option String
  pub order_record : Option String
  pub fill_records : List String
  pub position_records : List String
  pub outbox_record : String

abbrev pub is_one_of : List String → String → Bool
is_one_of types t = any_by (λ x. x == t) types

abbrev pub market_event_types : List String
market_event_types =
    "market_discovered" ∷ "market_updated" ∷ "market_filtered_in" ∷ "market_filtered_out"
    ∷ "market_resolved_or_disabled" ∷ []

abbrev pub account_event_types : List String
account_event_types = "balance_updated" ∷ []

abbrev pub orderbook_event_types : List String
orderbook_event_types = "orderbook" ∷ "orderbook_snapshot_updated" ∷ []

abbrev pub order_event_types : List String
order_event_types =
    "order_created" ∷ "order_signed" ∷ "order_submitted" ∷ "order_rejected" ∷ "order_matched"
    ∷ "order_no_fill" ∷ "order_partially_filled" ∷ "order_state_updated" ∷ "order_cancel_requested"
    ∷ "order_cancelled" ∷ "replace_order_submitted" ∷ "unexpected_resting_order_detected" ∷ []

abbrev pub fill_event_types : List String
fill_event_types = "fill_recorded" ∷ "trade_mined" ∷ "trade_confirmed" ∷ []

abbrev pub position_event_types : List String
position_event_types = "position_updated" ∷ []

pub record PlannedRecord : Type 0 where
  pub event : OutboxEvent
  pub kind : Kind
  pub content : String

abbrev pub of_kind : Kind → List String → List (Kind × String)
of_kind k = map (λ content. (k, content))

abbrev pub of_kind? : Kind → Option String → List (Kind × String)
of_kind? k none = []
of_kind? k (some content) = (k, content) ∷ []

abbrev pub when : Bool → List (Kind × String) → List (Kind × String)
when test records = if test then records else []

-- `route_event`
unfoldable pub route_event : (OutboxEvent → PayloadParts) → OutboxEvent → List (Kind × String)
route_event parts e =
    (audit, (parts e).audit_record)
    ∷ (of_kind allocation (parts e).allocation_records
        ++ (when (is_one_of market_event_types e.event_type)
              (of_kind? market (parts e).market_record)
            ++ (when (is_one_of account_event_types e.event_type)
                  ((account, (parts e).account_record) ∷ [])
                ++ (when (is_one_of orderbook_event_types e.event_type)
                      (of_kind? orderbook (parts e).orderbook_record)
                    ++ (when (is_one_of order_event_types e.event_type)
                          (of_kind? order (parts e).order_record)
                        ++ (when (is_one_of fill_event_types e.event_type)
                              (of_kind fill (parts e).fill_records)
                            ++ (when (is_one_of position_event_types e.event_type)
                                  (of_kind position (parts e).position_records)
                                ++ (outbox, (parts e).outbox_record) ∷ [])))))))

abbrev pub plan_records : OutboxEvent → List (Kind × String) → List PlannedRecord
plan_records e [] = []
plan_records e ((k, content) ∷ rest) =
    record { event = e; kind = k; content = content } ∷ plan_records e rest

-- The records planned so far, and how many each event needs.
pub record Plan : Type 0 where
  pub planned : List PlannedRecord
  pub required : Dict String ℕ

unfoldable pub plan_event : (OutboxEvent → PayloadParts) → Plan → OutboxEvent → Plan
plan_event parts p e = record {
  planned = p.planned ++ plan_records e (route_event parts e);
  required = insert e.event_id (length (route_event parts e)) p.required;
}

unfoldable pub plan_events : (OutboxEvent → PayloadParts) → Plan → List OutboxEvent → Plan
unfolding plan_event
plan_events parts p [] = p
plan_events parts p (e ∷ es) = plan_events parts (plan_event parts p e) es

-- `build_planned_records`
unfoldable pub build_planned_records : (OutboxEvent → PayloadParts) → List OutboxEvent → Plan
unfolding plan_events
build_planned_records parts es = plan_events parts (record { planned = []; required = [] }) es

-- `route_key`
unfoldable pub route_key : OutboxEvent → String
route_key e = text_or (merge_key e) (merge_text e)

-- `_coalesce_low_priority`: the critical events, the last of each route among the others, and how many
-- others were merged.
pub record Coalesced : Type 0 where
  pub critical : List OutboxEvent
  pub latest : Dict String OutboxEvent
  pub merged : ℕ

unfoldable pub coalesce_into : Coalesced → OutboxEvent → Coalesced
coalesce_into c e =
    if is_critical e then record c { critical = c.critical ++ e ∷ [] } else record c {
      latest = insert (route_key e) e c.latest;
      merged = if is_none (lookup (route_key e) c.latest) then c.merged else suc c.merged;
    }

unfoldable pub coalesce_from : Coalesced → List OutboxEvent → Coalesced
unfolding coalesce_into
coalesce_from c [] = c
coalesce_from c (e ∷ es) = coalesce_from (coalesce_into c e) es

-- The order of `(created_at, event_id)`.
unfoldable pub older : OutboxEvent → OutboxEvent → Bool
older a b =
    if nat_beq a.created_at b.created_at
    then text_leb a.event_id b.event_id
    else leb a.created_at b.created_at

unfoldable pub insert_event : OutboxEvent → List OutboxEvent → List OutboxEvent
insert_event x [] = x ∷ []
insert_event x (y ∷ ys) = let rest = insert_event x ys in if older x y then x ∷ y ∷ ys else y ∷ rest

unfoldable pub sort_events : List OutboxEvent → List OutboxEvent
unfolding insert_event older
sort_events [] = []
sort_events (x ∷ xs) = insert_event x (sort_events xs)

unfoldable pub coalesce_low_priority : List OutboxEvent → List OutboxEvent × ℕ
unfolding coalesce_from sort_events
coalesce_low_priority es =
    let c = coalesce_from (record { critical = []; latest = []; merged = 0 }) es in
    (c.critical ++ sort_events (values c.latest), c.merged)
