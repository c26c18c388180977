-- ===== src/Liquid/Wire/RoundTrip.antt =====
-- ace-liquid/src/wire.rs: what is built is read back.
use ace_chain.Common.{
  ℕ, ◌^◌, ◌<◌, ◌≡◌, ◌≢◌, refl, sym, ◌∙◌, true, not, ◌||◌, ◌==◌, List, [], ◌∷◌, le_bytes, be_bytes,
  of_le_bytes, arith,
}
use ace_chain.Common.Bytes.{of_be_bytes, of_be_bytes-be_bytes, of_le_bytes-le_bytes}
use ace_chain.Liquid.Types.{
  Market, OrderSide, buy, sell, OrderType, limit, market, TimeInForce, good_til_cancelled,
  immediate_or_cancel, LiquidResult, ok, ◌>>=◌, ◌>>◌, guard, invalid_payload, side_byte,
}
use ace_chain.Liquid.Wire.{
  Request, create_request, place_request, cancel_request, deposit_request, withdraw_request,
  decode_side, decode_order_type, decode_tif, type_byte, tif_byte, decode_payload,
  build_create_market_payload, build_place_order_payload, build_cancel_order_payload,
  build_deposit_like, order_of,
}

abbrev pub IsU64 : ℕ → Type 0
IsU64 n = n < 256 ^ 8

abbrev pub IsId : ℕ → Type 0
IsId n = n < 256 ^ 32

u64_back : (n : ℕ) → IsU64 n → of_le_bytes (le_bytes 8 n) ≡ n
u64_back n h = of_le_bytes-le_bytes 8 n h

u16_back : (n : ℕ) → n < 256 ^ 2 → of_le_bytes (le_bytes 2 n) ≡ n
u16_back n h = of_le_bytes-le_bytes 2 n h

id_back : (n : ℕ) → IsId n → of_be_bytes (be_bytes 32 n) ≡ n
id_back n h = of_be_bytes-be_bytes 32 n h

byte_back : (n : ℕ) → of_le_bytes (n ∷ []) ≡ n
byte_back n = omega arith

-- The payload of a request, by its builder.
unfoldable pub payload_of : ℕ → Request → List ℕ
unfolding build_create_market_payload build_place_order_payload build_cancel_order_payload
    build_deposit_like
payload_of nonce (create_request m) =
    build_create_market_payload nonce m.base_mint m.quote_mint m.tick_size m.lot_size
      m.maker_fee_bps m.taker_fee_bps
payload_of nonce (place_request id o) =
    build_place_order_payload nonce id o.side o.order_type o.time_in_force o.price o.quantity
payload_of nonce (cancel_request id order) = build_cancel_order_payload nonce id order
payload_of nonce (deposit_request id asset amount) = build_deposit_like 4 nonce id asset amount
payload_of nonce (withdraw_request id asset amount) = build_deposit_like 5 nonce id asset amount

-- A request that a sender can make: its fields fit their words, an order is the sender's own, and a
-- market is active, named by its mints, and has units.
abbrev pub CanAsk : (ℕ → ℕ → ℕ) → ℕ → Request → Type 0
CanAsk derive sender (create_request m) =
    IsId m.base_mint
    × IsId m.quote_mint
    × IsU64 m.tick_size
    × IsU64 m.lot_size
    × (m.maker_fee_bps < 256 ^ 2)
    × (m.taker_fee_bps < 256 ^ 2)
    × (m.tick_size ≢ 0)
    × (m.lot_size ≢ 0)
    × (m.market_id ≡ derive m.base_mint m.quote_mint)
    × (m.active ≡ true)
CanAsk derive sender (place_request id o) =
    IsId id × IsU64 o.price × IsU64 o.quantity × (o.owner ≡ sender)
CanAsk derive sender (cancel_request id order) = IsId id × IsU64 order
CanAsk derive sender (deposit_request id asset amount) = IsId id × IsU64 amount
CanAsk derive sender (withdraw_request id asset amount) = IsId id × IsU64 amount

side_back : (s : OrderSide) → decode_side (of_le_bytes (side_byte s ∷ [])) ≡ ok s
side_back buy = refl
side_back sell = refl

type_back : (t : OrderType) → decode_order_type (of_le_bytes (type_byte t ∷ [])) ≡ ok t
type_back limit = refl
type_back market = refl

tif_back : (t : TimeInForce) → decode_tif (of_le_bytes (tif_byte t ∷ [])) ≡ ok t
tif_back good_til_cancelled = refl
tif_back immediate_or_cancel = refl

-- The order that is read once its bytes are.
abbrev placed_from :
    ℕ
    → ℕ
    → ℕ
    → ℕ
    → ℕ
    → LiquidResult OrderSide
    → LiquidResult OrderType
    → LiquidResult TimeInForce
    → LiquidResult (ℕ × Request)
placed_from nonce id owner price quantity side order_type tif = do
  s ← side
  t ← order_type
  f ← tif
  ok (nonce, place_request id (order_of owner s t f price quantity))

-- The market that is read once its bytes are.
abbrev created_from : (ℕ → ℕ → ℕ) → ℕ → ℕ → ℕ → ℕ → ℕ → ℕ → ℕ → LiquidResult (ℕ × Request)
created_from derive nonce base_mint quote_mint tick lot maker_fee taker_fee = do
  guard (not (tick == 0 || lot == 0)) invalid_payload
  ok (
    nonce,
    create_request (record {
      market_id = derive base_mint quote_mint;
      base_mint = base_mint;
      quote_mint = quote_mint;
      tick_size = tick;
      lot_size = lot;
      maker_fee_bps = maker_fee;
      taker_fee_bps = taker_fee;
      active = true;
    }),
  )

created_from-asked :
    (derive : ℕ → ℕ → ℕ) (nonce : ℕ) (m : Market)
    → m.tick_size ≢ 0
    → m.lot_size ≢ 0
    → m.market_id ≡ derive m.base_mint m.quote_mint
    → m.active ≡ true
    → created_from derive nonce m.base_mint m.quote_mint m.tick_size m.lot_size m.maker_fee_bps
        m.taker_fee_bps
      ≡ ok (nonce, create_request m)
created_from-asked derive nonce m x y named on = ground (arith, x, y, named, on)

-- Whatever request a sender can make: its payload is read as that request with its nonce.
pub payload_roundtrip :
    (derive : ℕ → ℕ → ℕ) (sender nonce : ℕ) (r : Request)
    → IsU64 nonce
    → CanAsk derive sender r
    → decode_payload derive sender (payload_of nonce r) ≡ ok (nonce, r)
unfolding decode_payload payload_of
payload_roundtrip derive sender nonce (cancel_request id order) n (i, o) =
    let a = u64_back nonce n in
    let b = id_back id i in let c = u64_back order o in λ t. ok (a t, cancel_request (b t) (c t))
payload_roundtrip derive sender nonce (deposit_request id asset amount) n (i, o) =
    let a = u64_back nonce n in
    let b = id_back id i in
    let c = u64_back amount o in
    let d = byte_back asset in λ t. ok (a t, deposit_request (b t) (d t) (c t))
payload_roundtrip derive sender nonce (withdraw_request id asset amount) n (i, o) =
    let a = u64_back nonce n in
    let b = id_back id i in
    let c = u64_back amount o in
    let d = byte_back asset in λ t. ok (a t, withdraw_request (b t) (d t) (c t))
payload_roundtrip derive sender nonce (place_request id o) n (i, p, q, own) =
    let a = u64_back nonce n in
    let b = id_back id i in
    let c = u64_back o.price p in
    let d = u64_back o.quantity q in
    let w = sym own in
    λ t.
      placed_from (a t) (b t) (w t) (c t) (d t) (side_back o.side t) (type_back o.order_type t)
        (tif_back o.time_in_force t)
payload_roundtrip derive sender nonce (create_request m) n (i, j, u, v, f, g, x, y, named, on) =
    let a = u64_back nonce n in
    let b = id_back m.base_mint i in
    let c = id_back m.quote_mint j in
    let d = u64_back m.tick_size u in
    let e = u64_back m.lot_size v in
    let k = u16_back m.maker_fee_bps f in
    let l = u16_back m.taker_fee_bps g in
    (λ t. created_from derive (a t) (b t) (c t) (d t) (e t) (k t) (l t))
    ∙ created_from-asked derive nonce m x y named on
