-- ===== src/Workers/Persistence/Saving.antt =====
-- workers/persistence_worker.py: an event without a failure has its records saved.
use mathlib.Core.Bool.{false≢true}
use fdv.Base.{
  arith, ◌≡◌, refl, ◌⊎◌, inl, inr, sym, ◌∙◌, ap, String, Bool, true, false, ◌||◌, Option, none,
  some, List, [], ◌∷◌, ◌++◌, length, any_by, ltb, is_none, ◌==◌, string_eq, if◌then◌else◌,
  Bool-cases, All,
}
use fdv.Base.Dict.{Dict, lookup, lookup-insert}
use fdv.Workers.Persistence.{Kind, same_kind, PlannedRecord}
use fdv.Workers.Persistence.Writing.{
  Repository, Written, set_default, fail_one, succeed_one, after_save, write_one, write_singles,
  write_many, after_batch, write_with, write_kind, of_that_kind, write_items, write_kinds,
  select_repository_method,
}

-- A record is among the saved ones.
abbrev pub In : PlannedRecord → List PlannedRecord → Type 0
In p [] = ⊥
In p (q ∷ qs) = (p ≡ q) ⊎ In p qs

In-append_left : (p : PlannedRecord) (ps qs : List PlannedRecord) → In p ps → In p (ps ++ qs)
In-append_left p [] qs h = absurd h
In-append_left p (x ∷ ps) qs (inl e) = inl e
In-append_left p (x ∷ ps) qs (inr h) = inr (In-append_left p ps qs h)

In-append_right : (p : PlannedRecord) (ps qs : List PlannedRecord) → In p qs → In p (ps ++ qs)
In-append_right p [] qs h = h
In-append_right p (x ∷ ps) qs h = inr (In-append_right p ps qs h)

-- Nothing is unsaved, and no failure is forgotten.
pub record Grows (w v : Written) : Type 0 where
  pub keeps : (p : PlannedRecord) → In p w.saved → In p v.saved
  pub recalls : (id : String) → lookup id v.failed ≡ none → lookup id w.failed ≡ none

Grows-refl : (w : Written) → Grows w w
Grows-refl w = record { keeps = λ p h. h; recalls = λ id h. h }

Grows-trans : (u v w : Written) → Grows u v → Grows v w → Grows u w
Grows-trans u v w g h = record {
  keeps = λ p q. h.keeps p (g.keeps p q);
  recalls = λ id q. g.recalls id (h.recalls id q);
}

-- A record of the event with the id is saved.
abbrev pub Saved : String → Written → PlannedRecord → Type 0
Saved id w p = (p.event.event_id == id) ≡ true → In p w.saved

-- Without a failure of the event in the end, these records of it are saved.
abbrev Saves : String → Written → List PlannedRecord → Type 0
Saves id w ps = lookup id w.failed ≡ none → All (Saved id w) ps

All-keeps :
    (id : String) (w v : Written) (ps : List PlannedRecord)
    → Grows w v
    → All (Saved id w) ps
    → All (Saved id v) ps
All-keeps id w v [] g h = tt
All-keeps id w v (p ∷ ps) g h = ((λ q. g.keeps p (h.0 q)), All-keeps id w v ps g h.1)

set_default-kept :
    (k id m : String) (d : Dict String String)
    → lookup id d ≡ none
    → is_none (lookup k d) ≡ false
    → (k == id) ≡ false
set_default-kept k id m d h q = elim (Bool-cases (k == id)) [
  | inl hit ↦
      absurd (
        false≢true
          (sym q ∙ ap is_none (ap (λ x. lookup x d) ((string_eq.same_iff k id).0 hit) ∙ h)))
  | inr miss ↦ miss
]

set_default-none :
    (k id m : String) (d : Dict String String)
    → lookup id (set_default k m d) ≡ none
    → (lookup id d ≡ none) × ((k == id) ≡ false)
set_default-none k id m d = elim (Bool-cases (is_none (lookup k d))) [
  | inl q ↦ rw q (λ h. ground (arith, lookup-insert k id m d))
  | inr q ↦ rw q (λ h. (h, set_default-kept k id m d h q))
]

fail_one-Grows : (w : Written) (p : PlannedRecord) (m : String) → Grows w (fail_one w p m)
unfolding fail_one
fail_one-Grows w p m = record {
  keeps = λ q h. h;
  recalls = λ id h. (set_default-none p.event.event_id id m w.failed h).0;
}

fail_one-Saves :
    (id : String) (w : Written) (p : PlannedRecord) (m : String)
    → Saves id (fail_one w p m) (p ∷ [])
unfolding fail_one
fail_one-Saves id w p m h =
    ((λ q. absurd (false≢true (sym (set_default-none p.event.event_id id m w.failed h).1 ∙ q))), tt)

succeed_one-Grows : (w : Written) (p : PlannedRecord) → Grows w (succeed_one w p)
unfolding succeed_one
succeed_one-Grows w p = record {
  keeps = λ q h. In-append_left q w.saved (p ∷ []) h;
  recalls = λ id h. h;
}

-- What a write of some records from a state comes to.
abbrev Writes : String → Written → Written → List PlannedRecord → Type 0
Writes id w v ps = Grows w v × Saves id v ps

after_save-Writes :
    (id : String) (w : Written) (p : PlannedRecord) (o : Option String)
    → Writes id w (after_save w p o) (p ∷ [])
unfolding succeed_one
after_save-Writes id w p none =
    (succeed_one-Grows w p, λ h. ((λ q. In-append_right p w.saved (p ∷ []) (inl refl)), tt))
after_save-Writes id w p (some error) = (fail_one-Grows w p _, fail_one-Saves id w p _)

saved_each :
    (id : String) (v : Written) (ps : List PlannedRecord)
    → ((p : PlannedRecord) → In p ps → In p v.saved)
    → All (Saved id v) ps
saved_each id v [] f = tt
saved_each id v (p ∷ ps) f = ((λ q. f p (inl refl)), saved_each id v ps (λ x h. f x (inr h)))

-- The records of one of the kinds.
abbrev pub OfKinds : List Kind → (PlannedRecord → Type 0) → PlannedRecord → Type 0
OfKinds ks P p = any_by (λ k. same_kind p.kind k) ks ≡ true → P p

no_kinds : (P : PlannedRecord → Type 0) (ps : List PlannedRecord) → All (OfKinds [] P) ps
no_kinds P [] = tt
no_kinds P (p ∷ ps) = ((λ o. absurd (false≢true o)), no_kinds P ps)

keep_first :
    (P : PlannedRecord → Type 0) (b : Bool) (p : PlannedRecord) (rest : List PlannedRecord)
    → All P (if b then p ∷ rest else rest)
    → (b ≡ true → P p) × All P rest
keep_first P true p rest h = ((λ q. h.0), h.1)
keep_first P false p rest h = ((λ q. absurd (false≢true q)), h)

either_kind : (P : Type 0) (a b : Bool) → (a ≡ true → P) → (b ≡ true → P) → (a || b) ≡ true → P
either_kind P true b f g o = f refl
either_kind P false b f g o = g o

add_kind :
    (k : Kind) (ks : List Kind) (P : PlannedRecord → Type 0) (ps : List PlannedRecord)
    → All P (of_that_kind k ps)
    → All (OfKinds ks P) ps
    → All (OfKinds (k ∷ ks) P) ps
add_kind k ks P [] h g = tt
add_kind k ks P (p ∷ ps) h g =
    let one = keep_first P (same_kind p.kind k) p (of_that_kind k ps) h in
    (
      (λ o.
          either_kind (P p) (same_kind p.kind k) (any_by (λ j. same_kind p.kind j) ks) one.0 g.0 o),
      add_kind k ks P ps one.1 g.1,
    )

module _ (r : Repository) (id : String) where
  write_one-Writes :
      (method : Option String) (w : Written) (p : PlannedRecord)
      → Writes id w (write_one r method w p) (p ∷ [])
  unfolding write_one
  write_one-Writes none w p = (fail_one-Grows w p _, fail_one-Saves id w p _)
  write_one-Writes (some method) w p = after_save-Writes id w p (r.save w.saved method (p ∷ []))

  write_singles-Writes :
      (method : Option String) (w : Written) (ps : List PlannedRecord)
      → Writes id w (write_singles r method w ps) ps
  unfolding write_singles
  write_singles-Writes method w [] = (Grows-refl w, λ h. tt)
  write_singles-Writes method w (p ∷ ps) =
      let v = write_one r method w p in
      let one = write_one-Writes method w p in
      let rest = write_singles-Writes method v ps in
      (
        Grows-trans w v (write_singles r method v ps) one.0 rest.0,
        λ h. ((λ q. rest.0.keeps p ((one.1 (rest.0.recalls id h)).0 q)), rest.1 h),
      )

  write_many-Writes :
      (k : Kind) (w : Written) (ps : List PlannedRecord) → Writes id w (write_many k w ps) ps
  unfolding write_many
  write_many-Writes k w ps = (
    record { keeps = λ q h. In-append_left q w.saved ps h; recalls = λ i h. h },
    λ h. saved_each id (write_many k w ps) ps (λ p q. In-append_right p w.saved ps q),
  )

  after_batch-Writes :
      (k : Kind) (single : Option String) (w : Written) (ps : List PlannedRecord)
      (o : Option String)
      → Writes id w (after_batch r k single w ps o) ps
  after_batch-Writes k single w ps none = write_many-Writes k w ps
  after_batch-Writes k single w ps (some error) = write_singles-Writes single w ps

  write_with-Writes :
      (k : Kind) (batch single : Option String) (w : Written) (ps : List PlannedRecord)
      → Writes id w (write_with r k batch single w ps) ps
  unfolding write_with
  write_with-Writes k none single w ps = write_singles-Writes single w ps
  write_with-Writes k (some batch) single w ps = elim (Bool-cases (ltb 1 (length ps))) [
    | inl q ↦ rw q (after_batch-Writes k single w ps (r.save w.saved batch ps))
    | inr q ↦ rw q (write_singles-Writes single w ps)
  ]

  write_items-Writes :
      (k : Kind) (w : Written) (ps : List PlannedRecord) → Writes id w (write_items r k w ps) ps
  unfolding write_items write_kind
  write_items-Writes k w [] = (Grows-refl w, λ h. tt)
  write_items-Writes k w (p ∷ ps) =
      write_with-Writes k (select_repository_method r k true) (select_repository_method r k false) w
        (p ∷ ps)

  pub write_kinds-Writes :
      (ks : List Kind) (w : Written) (planned : List PlannedRecord)
      → let v = write_kinds r ks w planned in
        Grows w v × (lookup id v.failed ≡ none → All (OfKinds ks (Saved id v)) planned)
  unfolding write_kinds
  write_kinds-Writes [] w planned = (Grows-refl w, λ h. no_kinds (Saved id w) planned)
  write_kinds-Writes (k ∷ ks) w planned =
      let items = of_that_kind k planned in
      let u = write_items r k w items in
      let v = write_kinds r ks u planned in
      let one = write_items-Writes k w items in
      let rest = write_kinds-Writes ks u planned in
      (
        Grows-trans w u v one.0 rest.0,
        λ h.
            add_kind k ks (Saved id v) planned
              (All-keeps id u v items rest.0 (one.1 (rest.0.recalls id h))) (rest.1 h),
      )
