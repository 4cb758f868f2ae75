-- ===== src/Oracle/Lending/Tests.antt =====
-- internal/oracle/lending_oracle.go with a storage that keeps nothing, on two states with one raw id.
use shai.Prelude.{
  ◌≡◌, refl, [], ◌∷◌, some, none, false, pos, codes, bytes_eq, lookup, and_then, Bytes,
}
use shai.Asset.{lovelace}
use shai.Oracle.Lending.{
  market, LendingState, LendingParser, LendingStorage, LendingOracle, get_state, get_all_states,
  load_lending_states_of, new_lending_oracle, handle_lending_rollback,
}
use shai.Oracle.Lending.Lookup.{sole, or_else, with_id, get_state-sole}
use shai.Oracle.Lending.Rollback.{
  IsTracked, fresh_start, loads, unless_rolled_back, handle_lending_rollback-unless_rolled_back,
}

abbrev loan_market : Bytes → LendingState
loan_market protocol = record {
  state_id = codes "m";
  state_type = market;
  protocol = protocol;
  network = codes "mainnet";
  total_supply = 10;
  total_borrows = 5;
  available_liq = 5;
  interest_rate = 100;
  collateral_factor = 50;
  underlying_asset = lovelace;
  collateral_asset = lovelace;
  lp_token = lovelace;
  oracle_price = 0;
  oracle_denominator = 0;
  valid_from = 0;
  valid_to = 0;
  loan_amount = 0;
  repayment_amount = 0;
  start_time = 0;
  due_date = 0;
  duration = pos 0;
  is_overdue = false;
  can_liquidate = false;
  loan_status = [];
  lender = [];
  borrower = [];
  slot = 9;
  tx_hash = [];
  tx_index = 0;
  timestamp = 1;
  updated_at = 1;
}

abbrev lending_storage : LendingStorage (Unit {0})
lending_storage = record {
  save_lending_state = λ state s. some s;
  delete_lending_state = λ state s. none;
  load_lending_states =
      λ network protocol s. some (loan_market (codes "liqwid") ∷ loan_market (codes "levvy") ∷ []);
}

abbrev lending_parser : LendingParser
lending_parser = record {
  lending_protocol = codes "liqwid";
  parse_datum = λ datum hash index slot now. none;
  addresses = [];
}

abbrev loaded : LendingOracle Unit
loaded =
    load_lending_states_of lending_storage lending_parser (codes "mainnet") (new_lending_oracle tt)

running : loaded.stopped ≡ false
unfolding load_lending_states_of
running = refl

get_state-sole_example :
    get_state loaded (codes "m")
    ≡ or_else
        (lookup (codes "m") loaded.states)
        (sole (with_id (codes "m") (get_all_states loaded)))
get_state-sole_example = get_state-sole loaded (codes "m")

handle_lending_rollback-unless_rolled_back_example :
    (lookup (codes "mainnet:liqwid:m") (handle_lending_rollback lending_storage 7 loaded).0.states
      ≡ and_then (lookup (codes "mainnet:liqwid:m") loaded.states) (unless_rolled_back 7))
    × IsTracked (handle_lending_rollback lending_storage 7 loaded).0.states
handle_lending_rollback-unless_rolled_back_example =
    handle_lending_rollback-unless_rolled_back lending_storage lending_parser (codes "mainnet")
      loaded 7 (codes "mainnet:liqwid:m") (loads (new_lending_oracle tt) (fresh_start tt)) running
