-- ===== src/Liquid/Execute/Tests.antt =====
-- ace-liquid/src/wire.rs: a market is created and an order is read.
use ace_chain.Common.{ℕ, ◌≡◌, refl, List, [], ◌∷◌, arith}
use ace_chain.Common.Assoc.{lookup, insert}
use ace_chain.Liquid.Types.{
  buy, limit, good_til_cancelled, PlaceOrder, LiquidResult, ok, err, out_of_fuel,
}
use ace_chain.Liquid.Critbit.{critbit}
use ace_chain.Liquid.Wire.{place_request, decode_payload, build_create_market_payload}
use ace_chain.Liquid.Wire.RoundTrip.{payload_of, payload_roundtrip}
use ace_chain.Liquid.Execute.{LiquidOutcome, Venue, market_created, execute_liquid_tx}
use ace_chain.Liquid.Execute.Once.{IsExecuted, execute_liquid_tx-IsExecuted}

abbrev bid : PlaceOrder
bid = record {
  owner = 7;
  side = buy;
  order_type = limit;
  price = 300;
  quantity = 5;
  time_in_force = good_til_cancelled;
}

payload_roundtrip_example :
    decode_payload (λ a b. 77) 7 (payload_of 9 (place_request 77 bid))
    ≡ ok (9, place_request 77 bid)
payload_roundtrip_example =
    payload_roundtrip (λ a b. 77) 7 9 (place_request 77 bid) (omega arith)
      (omega arith, omega arith, omega arith, refl)

abbrev venue : Venue critbit
venue = record {
  tokens = record { mints = []; authorities = []; balances = []; allowances = λ m o s. 0 };
  books = [];
  nonces = (7, 4) ∷ [];
}

abbrev payload : List ℕ
payload = build_create_market_payload 4 1 2 1 1 0 0

abbrev left_by : LiquidResult (LiquidOutcome × Venue critbit) → Venue critbit
left_by (ok x) = x.1
left_by (err _) = venue
left_by out_of_fuel = venue

abbrev opened : Venue critbit
opened = left_by (execute_liquid_tx (λ id. 90) (λ a b. 77) venue 7 payload)

execute_liquid_tx-IsExecuted_example : IsExecuted (λ id. 90) (λ a b. 77) venue 7 payload opened
unfolding execute_liquid_tx build_create_market_payload lookup insert
execute_liquid_tx-IsExecuted_example =
    execute_liquid_tx-IsExecuted (λ id. 90) (λ a b. 77) venue opened 7 payload (market_created 77)
      refl
