-- ===== src/Runtime/AccountStore/Reads.antt =====
-- What readers of the published snapshot find after each kind of write.
use fdv.Base.{
  String, Bool, true, false, ◌≡◌, refl, Option, none, some, arith, string_eq, pair_eq, ◌==◌,
  if◌then◌else◌,
}
use fdv.Base.Dict.{lookup, insert, find_by-values, lookup-insert, lookup-erase}
use fdv.Domain.Position.{Position}
use fdv.Domain.Account.{
  MarketPauseSource, get_position, pause_for_market, is_market_paused, build_pause,
}
use fdv.Runtime.AccountStore.{
  AccountStore, position_key, upsert_position, pause_market, resume_market, position, pause, resume,
  store_step,
}
use fdv.Runtime.AccountStore.Invariant.{StoreValid, store_step-StoreValid}

pub get_position-lookup :
    (s : AccountStore) (c t : String)
    → StoreValid s
    → get_position s.snapshot c t ≡ lookup (c, t) s.positions
unfolding get_position
get_position-lookup s c t v =
    rw v.published (find_by-values position_key (c, t) s.positions v.positions_keyed)

pub pause_for_market-lookup :
    (s : AccountStore) (c : String)
    → StoreValid s
    → pause_for_market s.snapshot c ≡ lookup c s.market_pauses
unfolding pause_for_market
pause_for_market-lookup s c v =
    rw v.published (find_by-values (λ p. p.condition_id) c s.market_pauses v.pauses_keyed)

upsert_position-StoreValid :
    (s : AccountStore) (p : Position) → StoreValid s → StoreValid (upsert_position s p)
unfolding store_step
upsert_position-StoreValid s p v = store_step-StoreValid s (position p) v

positions-upsert_position :
    (s : AccountStore) (p : Position)
    → (upsert_position s p).positions ≡ insert (position_key p) p s.positions
unfolding upsert_position
positions-upsert_position s p = refl

-- After `upsert_position` on a valid store the snapshot has the position under its market and token,
-- and every other position as before.
pub get_position-upsert_position :
    (s : AccountStore) (p : Position) (c t : String)
    → StoreValid s
    → get_position (upsert_position s p).snapshot c t
      ≡ (if position_key p == (c, t) then some p else get_position s.snapshot c t)
get_position-upsert_position s p c t v =
    rw
      (
        get_position-lookup s c t v,
        get_position-lookup (upsert_position s p) c t (upsert_position-StoreValid s p v),
        positions-upsert_position s p,
      )
      (lookup-insert (position_key p) (c, t) p s.positions)

module _ (s : AccountStore) (c d : String) (v : StoreValid s) where
  pub pauses-pause_market :
      (reason : String) (source : Option MarketPauseSource) (r : Option Bool)
      → pause_for_market (pause_market s c reason source r).snapshot d
        ≡ (if c == d then some (build_pause c reason source r) else pause_for_market s.snapshot d)
  unfolding store_step pause_market
  pauses-pause_market reason source r =
      rw
        (
          pause_for_market-lookup s d v,
          pause_for_market-lookup (store_step s (pause c reason source r)) d
              (store_step-StoreValid s (pause c reason source r) v),
        )
        (lookup-insert c d _ s.market_pauses)

  pub pauses-resume_market :
      pause_for_market (resume_market s c).snapshot d
      ≡ (if c == d then none else pause_for_market s.snapshot d)
  unfolding store_step resume_market
  pauses-resume_market =
      rw
        (
          pause_for_market-lookup s d v,
          pause_for_market-lookup (store_step s (resume c)) d
              (store_step-StoreValid s (resume c) v),
        )
        (lookup-erase c d s.market_pauses)

-- On a valid store, `pause_market` pauses the market and `resume_market` lets it go on, and neither
-- changes whether another market is paused.
pub is_market_paused-pause_resume :
    (s : AccountStore) (c d reason : String) (source : Option MarketPauseSource) (r : Option Bool)
    → StoreValid s
    → (is_market_paused (pause_market s c reason source r).snapshot d
        ≡ (if c == d then true else is_market_paused s.snapshot d))
      × (is_market_paused (resume_market s c).snapshot d
          ≡ (if c == d then false else is_market_paused s.snapshot d))
unfolding is_market_paused
is_market_paused-pause_resume s c d reason source r v = (
  ground (arith, pauses-pause_market s c d v reason source r),
  ground (arith, pauses-resume_market s c d v),
)
