-- ===== src/Tests/Projection.antt =====
-- Order results written onto the account.
use fdv.Base.{true, false, ◌≡◌, refl, none, some, inl, List, [], ◌∷◌}
use fdv.Base.Integer.{pos}
use fdv.Decimal.{of_ℕ, hundredths, le}
use fdv.Domain.Order.{OrderResult, OrderResultStatus, OrderType, OrderSide, SellOrderIntent, Time}
use fdv.Domain.Account.{get_position, is_market_paused}
use fdv.Runtime.AccountStore.{AccountStore, new_store}
use fdv.Runtime.AccountStore.Invariant.{StoreValid, new_store-StoreValid}
use fdv.App.Projection.Amounts.{has_unexpected_resting_order}
use fdv.App.Projection.Apply.{apply_result_flags}
use fdv.App.Projection.Valid.{buy_result, sell_result, projector_step, projector_step-StoreValid}
use fdv.App.Projection.Flags.{apply_result_flags-resting}
use fdv.App.Projection.Fills.{IsFill, buy_all, grown, held_of, buy_all-grown}
use fdv.App.Projection.Kept.{KeepsHoldings}
use fdv.App.Projection.Holdings.{projector_step-KeepsHoldings}

-- The result of a FAK buy of ten shares.
abbrev result_of : OrderResultStatus → OrderResult
result_of status = record {
  trace_id = "t1";
  condition_id = "c1";
  token_id = "yes";
  status = status;
  intent = none;
  market_slug = some "election";
  order_id = some "o1";
  trade_id = none;
  side = some OrderSide.buy;
  order_type = some OrderType.fak;
  price = some (hundredths 40);
  requested_amount_usdc = some (of_ℕ 4);
  requested_size_shares = none;
  matched_shares = of_ℕ 10;
  remaining_shares = of_ℕ 0;
  spent_usdc = of_ℕ 4;
  notional_usdc = of_ℕ 4;
  reason = "";
  retryable = false;
  raw_response_summary = none;
  timestamps = record {
    queued_at = none;
    sign_started_at = none;
    signed_at = none;
    submitted_at = none;
    ack_at = none;
  };
}

abbrev filled : OrderResult
filled = result_of OrderResultStatus.full_fill

abbrev resting : OrderResult
resting = result_of OrderResultStatus.live

-- The store after the buy.
abbrev invested : AccountStore
invested = projector_step (buy_result filled none 5) new_store

invested-StoreValid : StoreValid invested
invested-StoreValid =
    projector_step-StoreValid (buy_result filled none 5) new_store new_store-StoreValid

filled-IsFill : IsFill "c1" "yes" filled
unfolding le
filled-IsFill = record {
  market = refl;
  token = refl;
  status = inl refl;
  filled = refl;
  paid = refl;
}

-- Two buys of ten shares.
abbrev two_fills : List (OrderResult × Time)
two_fills = (filled, 5) ∷ (filled, 6) ∷ []

buy_all-grown_example :
    (held_of (λ p. p.shares) (get_position (buy_all new_store two_fills).snapshot "c1" "yes")
      ≡ grown
          (λ r. r.matched_shares)
          (held_of (λ p. p.shares) (get_position new_store.snapshot "c1" "yes"))
          two_fills)
    × (held_of (λ p. p.cost_usdc) (get_position (buy_all new_store two_fills).snapshot "c1" "yes")
        ≡ grown
            (λ r. r.spent_usdc)
            (held_of (λ p. p.cost_usdc) (get_position new_store.snapshot "c1" "yes"))
            two_fills)
buy_all-grown_example =
    buy_all-grown "c1" "yes" new_store two_fills new_store-StoreValid
      (filled-IsFill, (filled-IsFill, tt))

-- An offer of four of the shares.
abbrev offer : SellOrderIntent
offer = record {
  trace_id = "t2";
  condition_id = "c1";
  token_id = "yes";
  price = hundredths 60;
  size_shares = of_ℕ 4;
  market_slug = none;
  order_type = OrderType.gtc;
  idempotency_key = some "k2";
  post_only = false;
  retry_count = pos 0;
}

projector_step-KeepsHoldings_example :
    KeepsHoldings invested
      (projector_step (sell_result filled (some invested.snapshot) offer 7) invested)
projector_step-KeepsHoldings_example =
    projector_step-KeepsHoldings (sell_result filled (some invested.snapshot) offer 7) invested
      invested-StoreValid refl

apply_result_flags-resting_example :
    ((apply_result_flags new_store resting none).allow_new_entries ≡ false)
    × (is_market_paused (apply_result_flags new_store resting none).snapshot "c1" ≡ true)
unfolding has_unexpected_resting_order
apply_result_flags-resting_example =
    apply_result_flags-resting new_store resting none new_store-StoreValid refl
