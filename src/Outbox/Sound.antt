-- ===== src/Outbox/Sound.antt =====
-- What holds of the outbox's dicts: keys are the events' ids, and a retained event is the one that is
-- held under its id, if one is held.
use fdv.Base.{String, ◌≡◌, refl, inl, inr, Option, none, some, arith, ◌==◌, string_eq, Bool-cases}
use fdv.Base.Dict.{
  Dict, lookup, insert, erase, Distinct, insert-Distinct, KeyedBy, insert-KeyedBy, erase-KeyedBy,
  lookup-insert, lookup-erase,
}
use fdv.Base.Entries.{erase-Distinct}
use fdv.Outbox.{OutboxEvent, LocalOutbox}

abbrev pub Agree : Dict String OutboxEvent → Dict String OutboxEvent → Type 0
Agree retained held =
    (k : String) (v w : OutboxEvent) → lookup k retained ≡ some v → lookup k held ≡ some w → v ≡ w

-- The parts that the invariant reads.
pub record SoundDicts (held retained : Dict String OutboxEvent) : Type 0 where
  pub distinct : Distinct retained
  pub held_keyed : KeyedBy (λ e. e.event_id) held
  pub retained_keyed : KeyedBy (λ e. e.event_id) retained
  pub agree : Agree retained held

abbrev pub OutboxSound : LocalOutbox → Type 0
OutboxSound s = SoundDicts s.events_by_id s.retained

module _ {held retained : Dict String OutboxEvent} (h : SoundDicts held retained) where
  pub erase_retained-SoundDicts : (k : String) → SoundDicts held (erase k retained)
  erase_retained-SoundDicts k = record {
    distinct = erase-Distinct k retained h.distinct;
    held_keyed = h.held_keyed;
    retained_keyed = erase-KeyedBy (λ e. e.event_id) k retained h.retained_keyed;
    agree = λ j v w p q. h.agree j v w (ground (arith, lookup-erase k j retained)) q;
  }

  pub erase_held-SoundDicts : (k : String) → SoundDicts (erase k held) retained
  erase_held-SoundDicts k = record {
    distinct = h.distinct;
    held_keyed = erase-KeyedBy (λ e. e.event_id) k held h.held_keyed;
    retained_keyed = h.retained_keyed;
    agree = λ j v w p q. h.agree j v w p (ground (arith, lookup-erase k j held));
  }

  pub insert_both-SoundDicts :
      (e : OutboxEvent) → SoundDicts (insert e.event_id e held) (insert e.event_id e retained)
  insert_both-SoundDicts e = record {
    distinct = insert-Distinct e.event_id e retained h.distinct;
    held_keyed = insert-KeyedBy (λ x. x.event_id) e.event_id e held refl h.held_keyed;
    retained_keyed = insert-KeyedBy (λ x. x.event_id) e.event_id e retained refl h.retained_keyed;
    agree = λ j v w p q. elim (Bool-cases (e.event_id == j)) [
      | inl hit ↦
          let a : some e ≡ some v = ground (arith, lookup-insert e.event_id j e retained) in
          let b : some e ≡ some w = ground (arith, lookup-insert e.event_id j e held) in cc
      | inr miss ↦
          h.agree j v w (ground (arith, lookup-insert e.event_id j e retained))
            (ground (arith, lookup-insert e.event_id j e held))
    ];
  }

  pub insert_held-SoundDicts :
      (e : OutboxEvent) → SoundDicts (insert e.event_id e held) (erase e.event_id retained)
  insert_held-SoundDicts e = record {
    distinct = erase-Distinct e.event_id retained h.distinct;
    held_keyed = insert-KeyedBy (λ x. x.event_id) e.event_id e held refl h.held_keyed;
    retained_keyed = erase-KeyedBy (λ x. x.event_id) e.event_id retained h.retained_keyed;
    agree = λ j v w p q. elim (Bool-cases (e.event_id == j)) [
      | inl hit ↦
          let a : ◌≡◌ {A = Option OutboxEvent} none (some v) =
            ground (arith, lookup-erase e.event_id j retained) in
          cc
      | inr miss ↦
          h.agree j v w (ground (arith, lookup-erase e.event_id j retained))
            (ground (arith, lookup-insert e.event_id j e held))
    ];
  }
