-- ===== src/Domain/Risk/Flags.antt =====
-- domain/risk.py: the gates on the market's flags and its status.
use fdv.Base.{
  String, Bool, false, not, Option, none, some, List, [], ◌∷◌, ◌++◌, if◌then◌else◌, string_eq,
}
use fdv.Domain.Order.{TradableOrderIntent}
use fdv.Domain.Intent
use fdv.Domain.Market.{Market, is_eligible}
use fdv.Domain.Risk.Types.{absent, flag, status, RiskCheck, Gate, go, ◌>>=◌}
use fdv.Domain.Risk.Inputs.{MarketFlags}
use fdv.Domain.Risk.Gates.{fail, failure}

-- One row of the table that `_check_market_state` runs through.
pub record FlagRow : Type 0 where
  pub name : String
  pub passed : Bool
  pub reason : String
  pub field_name : String
  pub suggested_action : String

unfoldable pub flag_rows : MarketFlags → List FlagRow
flag_rows f =
    record {
      name = "market_active_gate";
      passed = f.market_active;
      reason = "market_not_active";
      field_name = "market.active";
      suggested_action = "refresh_snapshot";
    }
    ∷ record {
      name = "market_open_gate";
      passed = f.market_open;
      reason = "market_not_open";
      field_name = "market.open";
      suggested_action = "refresh_snapshot";
    }
    ∷ record {
      name = "clob_gate";
      passed = f.clob_enabled;
      reason = "clob_disabled";
      field_name = "market.clob_enabled";
      suggested_action = "refresh_snapshot";
    }
    ∷ record {
      name = "resolved_gate";
      passed = not f.resolved;
      reason = "market_resolved";
      field_name = "market.resolved";
      suggested_action = "reject";
    }
    ∷ record {
      name = "cancelled_gate";
      passed = not f.cancelled;
      reason = "market_cancelled";
      field_name = "market.cancelled";
      suggested_action = "reject";
    }
    ∷ record {
      name = "archived_gate";
      passed = not f.archived;
      reason = "market_archived";
      field_name = "market.archived";
      suggested_action = "reject";
    }
    ∷ []

-- A row is noted whether it passed or not, and a failure is noted once more by `_fail`.
abbrev pub row_check : FlagRow → RiskCheck
row_check row = record {
  name = row.name;
  passed = row.passed;
  reason = "";
  field_name = some row.field_name;
  value = flag row.passed;
  suggested_action = "";
  retryable = false;
}

unfoldable pub check_flags : TradableOrderIntent → List FlagRow → List RiskCheck → Gate
check_flags i [] checks = go checks
check_flags i (row ∷ rows) checks =
    let noted = checks ++ row_check row ∷ [] in
    let rest = check_flags i rows noted in
    if row.passed
    then rest
    else fail (Intent.trace_id i) noted
        (failure row.name row.reason row.field_name row.suggested_action absent)

unfoldable pub check_market_status : TradableOrderIntent → Option Market → List RiskCheck → Gate
check_market_status i none checks = go checks
check_market_status i (some m) checks =
    if is_eligible m.trading_status
    then go checks
    else fail (Intent.trace_id i) checks (
        failure "market_status_gate" "market_not_active" "market.trading_status" "reject"
          (status m.trading_status))

unfoldable pub check_market_state :
    TradableOrderIntent → Option Market → MarketFlags → List RiskCheck → Gate
check_market_state i market flags checks =
    check_flags i (flag_rows flags) checks >>= check_market_status i market
