-- ===== src/Tests/Trading.antt =====
-- app/trading_service.py: a review with an executor that submits, and one that the gate refuses.
use fdv.Base.{none, some, ◌==◌, string_eq, if◌then◌else◌}
use fdv.App.Trading.{Executor, answered, review_intent}
use fdv.App.Trading.Results.{neither}
use fdv.App.Trading.Sending.{Reviewed, review_intent-Reviewed}
use fdv.Tests.Data.{buy_yes, request}

-- An executor with the one method `submit_buy`.
abbrev buyer : Executor
buyer name = if name == "submit_buy" then some (λ i. answered neither) else none

review_intent-Reviewed_example :
    Reviewed buy_yes request (review_intent (some buyer) buy_yes request "buy")
review_intent-Reviewed_example = review_intent-Reviewed (some buyer) buy_yes request "buy"
