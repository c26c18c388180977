-- ===== src/Liquid/Wire.antt =====
-- ace-liquid/src/wire.rs: the payloads of market transactions, read and written. An account and a market
-- are the numbers that their 32 bytes spell.
pub mod RoundTrip
use ace_chain.Common.{
  ℕ, zero, suc, ◌+◌, ◌-◌, ◌*◌, Bool, true, List, [], ◌∷◌, ◌++◌, ◌==◌, not, ◌||◌, if◌then◌else◌,
  length, take, le_bytes, be_bytes, of_le_bytes, ltb, u64_max,
}
use ace_chain.Common.Bytes.{of_be_bytes, slice}
use ace_chain.Liquid.Types.{
  Market, OrderSide, buy, sell, OrderType, limit, market, TimeInForce, good_til_cancelled,
  immediate_or_cancel, PlaceOrder, LiquidResult, ok, err, ◌>>=◌, ◌>>◌, guard, invalid_payload,
  side_byte,
}

abbrev pub op_liquid : ℕ
op_liquid = 15

-- What a payload asks for; the market to create is whole, and an order has its owner.
pub data Request : Type 0 where
  create_request : Market → Request
  place_request : ℕ → PlaceOrder → Request
  cancel_request : ℕ → ℕ → Request
  deposit_request withdraw_request : ℕ → ℕ → ℕ → Request

abbrev pub u64_at : ℕ → List ℕ → ℕ
u64_at start body = of_le_bytes (slice start 8 body)

abbrev pub u16_at : ℕ → List ℕ → ℕ
u16_at start body = of_le_bytes (slice start 2 body)

abbrev pub id_at : ℕ → List ℕ → ℕ
id_at start body = of_be_bytes (slice start 32 body)

abbrev pub byte_at : ℕ → List ℕ → ℕ
byte_at start body = of_le_bytes (slice start 1 body)

abbrev pub decode_side : ℕ → LiquidResult OrderSide
decode_side b = if b == 0 then ok buy else if b == 1 then ok sell else err invalid_payload

abbrev pub decode_order_type : ℕ → LiquidResult OrderType
decode_order_type b = if b == 0 then ok limit else if b == 1 then ok market else err invalid_payload

abbrev pub decode_tif : ℕ → LiquidResult TimeInForce
decode_tif b =
    if b == 0
    then ok good_til_cancelled
    else if b == 1
    then ok immediate_or_cancel
    else err invalid_payload

abbrev pub market_of : (ℕ → ℕ → ℕ) → List ℕ → Market
market_of derive_market_id body = record {
  market_id = derive_market_id (id_at 8 body) (id_at 40 body);
  base_mint = id_at 8 body;
  quote_mint = id_at 40 body;
  tick_size = u64_at 72 body;
  lot_size = u64_at 80 body;
  maker_fee_bps = u16_at 88 body;
  taker_fee_bps = u16_at 90 body;
  active = true;
}

unfoldable pub decode_create_market : (ℕ → ℕ → ℕ) → List ℕ → LiquidResult (ℕ × Request)
decode_create_market derive_market_id body = do
  guard (length body == 92) invalid_payload
  guard (not (u64_at 72 body == 0 || u64_at 80 body == 0)) invalid_payload
  ok (u64_at 0 body, create_request (market_of derive_market_id body))

abbrev pub order_of : ℕ → OrderSide → OrderType → TimeInForce → ℕ → ℕ → PlaceOrder
order_of owner side order_type tif price quantity = record {
  owner = owner;
  side = side;
  order_type = order_type;
  price = price;
  quantity = quantity;
  time_in_force = tif;
}

unfoldable pub decode_place_order : ℕ → List ℕ → LiquidResult (ℕ × Request)
decode_place_order owner body = do
  guard (length body == 59) invalid_payload
  side ← decode_side (byte_at 40 body)
  order_type ← decode_order_type (byte_at 41 body)
  tif ← decode_tif (byte_at 42 body)
  ok (
    u64_at 0 body,
    place_request (id_at 8 body)
        (order_of owner side order_type tif (u64_at 43 body) (u64_at 51 body)),
  )

unfoldable pub decode_cancel_order : List ℕ → LiquidResult (ℕ × Request)
decode_cancel_order body = do
  guard (length body == 48) invalid_payload
  ok (u64_at 0 body, cancel_request (id_at 8 body) (u64_at 40 body))

unfoldable pub decode_deposit_withdraw : (ℕ → ℕ → ℕ → Request) → List ℕ → LiquidResult (ℕ × Request)
decode_deposit_withdraw request body = do
  guard (length body == 49) invalid_payload
  ok (u64_at 0 body, request (id_at 8 body) (byte_at 40 body) (u64_at 41 body))

-- The decoding of a payload, before anything is executed.
unfoldable pub decode_payload : (ℕ → ℕ → ℕ) → ℕ → List ℕ → LiquidResult (ℕ × Request)
unfolding decode_create_market decode_place_order decode_cancel_order decode_deposit_withdraw
decode_payload derive_market_id sender [] = err invalid_payload
decode_payload derive_market_id sender (op ∷ []) = err invalid_payload
decode_payload derive_market_id sender (op ∷ sub ∷ body) =
    if not (op == op_liquid)
    then err invalid_payload
    else if sub == 1
    then decode_create_market derive_market_id body
    else if sub == 2
    then decode_place_order sender body
    else if sub == 3
    then decode_cancel_order body
    else if sub == 4
    then decode_deposit_withdraw deposit_request body
    else if sub == 5
    then decode_deposit_withdraw withdraw_request body
    else err invalid_payload

unfoldable pub build_create_market_payload : ℕ → ℕ → ℕ → ℕ → ℕ → ℕ → ℕ → List ℕ
build_create_market_payload nonce base_mint quote_mint tick_size lot_size maker_fee taker_fee =
    op_liquid
    ∷ 1
    ∷ (le_bytes 8 nonce
        ++ (be_bytes 32 base_mint
            ++ (be_bytes 32 quote_mint
                ++ (le_bytes 8 tick_size
                    ++ (le_bytes 8 lot_size ++ (le_bytes 2 maker_fee ++ le_bytes 2 taker_fee))))))

abbrev pub type_byte : OrderType → ℕ
type_byte limit = 0
type_byte market = 1

abbrev pub tif_byte : TimeInForce → ℕ
tif_byte good_til_cancelled = 0
tif_byte immediate_or_cancel = 1

unfoldable pub build_place_order_payload :
    ℕ → ℕ → OrderSide → OrderType → TimeInForce → ℕ → ℕ → List ℕ
build_place_order_payload nonce market_id side order_type tif price quantity =
    op_liquid
    ∷ 2
    ∷ (le_bytes 8 nonce
        ++ (be_bytes 32 market_id
            ++ (side_byte side
                ∷ type_byte order_type
                ∷ tif_byte tif
                ∷ (le_bytes 8 price ++ le_bytes 8 quantity))))

unfoldable pub build_cancel_order_payload : ℕ → ℕ → ℕ → List ℕ
build_cancel_order_payload nonce market_id order_id =
    op_liquid ∷ 3 ∷ (le_bytes 8 nonce ++ (be_bytes 32 market_id ++ le_bytes 8 order_id))

unfoldable pub build_deposit_like : ℕ → ℕ → ℕ → ℕ → ℕ → List ℕ
build_deposit_like sub nonce market_id asset amount =
    op_liquid ∷ sub ∷ (le_bytes 8 nonce ++ (be_bytes 32 market_id ++ (asset ∷ le_bytes 8 amount)))
