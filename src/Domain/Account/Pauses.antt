-- ===== src/Domain/Account/Pauses.antt =====
-- Taking a pause out of a snapshot, and the order lists of a market.
use fdv.Base.{
  String, ◌≡◌, none, List, [], ◌∷◌, find_by, filter_by, if◌then◌else◌, ◌==◌, ◌!=◌, string_eq, arith,
}
use fdv.Domain.Account.{AccountSnapshot, MarketPause, pause_for_market, without_market_pause}

find-without :
    (c d : String) (ps : List MarketPause)
    → find_by (λ p. p.condition_id == d) (filter_by (λ p. p.condition_id != c) ps)
      ≡ (if c == d then none else find_by (λ p. p.condition_id == d) ps)
find-without c d [] = ground arith
find-without c d (p ∷ ps) = ground (
  arith,
  find-without c d ps,
  string_eq.same_iff p.condition_id c,
  string_eq.same_iff p.condition_id d,
  string_eq.same_iff c d,
)

-- `without_market_pause` ends the pause of its market and keeps the pause of every other one.
pub pause_for_market-without :
    (s : AccountSnapshot) (c d : String)
    → pause_for_market (without_market_pause s c) d
      ≡ (if c == d then none else pause_for_market s d)
unfolding pause_for_market without_market_pause
pause_for_market-without s c d = find-without c d s.market_pauses
