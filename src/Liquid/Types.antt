-- ===== src/Liquid/Types.antt =====
-- ace-liquid/src/types.rs and error.rs: markets, orders, trades and errors. A `u64` is a number;
-- `derive_market_id` is a SHA-256 of the two mints, and is a parameter where it is used.
use ace_chain.Common.{◌≡◌, ◌≢◌, refl, ◌⊎◌, inl, inr, ℕ, Bool, true, false}

pub record Market : Type 0 where
  pub market_id : ℕ
  pub base_mint : ℕ
  pub quote_mint : ℕ
  pub tick_size : ℕ
  pub lot_size : ℕ
  pub maker_fee_bps : ℕ
  pub taker_fee_bps : ℕ
  pub active : Bool

-- `Market::new`; the identifier is `derive_market_id(base, quote)`.
unfoldable pub new_market : ℕ → ℕ → ℕ → Market
new_market market_id base_mint quote_mint = record {
  market_id = market_id;
  base_mint = base_mint;
  quote_mint = quote_mint;
  tick_size = 1;
  lot_size = 1;
  maker_fee_bps = 0;
  taker_fee_bps = 0;
  active = true;
}

pub data OrderSide : Type 0 where
  buy sell : OrderSide

pub data OrderType : Type 0 where
  limit market : OrderType

pub data TimeInForce : Type 0 where
  good_til_cancelled immediate_or_cancel : TimeInForce

pub data OrderStatus : Type 0 where
  open_order partially_filled filled cancelled : OrderStatus

pub record PlaceOrder : Type 0 where
  pub owner : ℕ
  pub side : OrderSide
  pub order_type : OrderType
  pub price : ℕ
  pub quantity : ℕ
  pub time_in_force : TimeInForce

pub record Order : Type 0 where
  pub order_id : ℕ
  pub owner : ℕ
  pub side : OrderSide
  pub order_type : OrderType
  pub price : ℕ
  pub quantity : ℕ
  pub remaining_quantity : ℕ
  pub status : OrderStatus
  pub sequence : ℕ

pub record Trade : Type 0 where
  pub maker_order_id : ℕ
  pub taker_order_id : ℕ
  pub maker : ℕ
  pub taker : ℕ
  pub side : OrderSide
  pub price : ℕ
  pub quantity : ℕ
  pub quote_quantity : ℕ

-- The texts of the errors, the identifier of the market, and the errors of serialization are left out.
pub data LiquidError : Type 0 where
  market_not_found market_already_exists market_inactive invalid_market_config : LiquidError
  order_not_found order_not_open : ℕ → LiquidError
  zero_amount zero_price no_liquidity self_trade arithmetic_overflow : LiquidError
  insufficient_balance nonce_mismatch : ℕ → ℕ → LiquidError
  settlement invalid_payload not_order_owner : LiquidError

-- `Result<A, LiquidError>`. `out_of_fuel` is none of the code's results: the matching loop ran out of
-- the rounds that the model gives it.
pub data LiquidResult {ℓ} (A : Type ℓ) : Type ℓ where
  ok : A → LiquidResult A
  err : LiquidError → LiquidResult A
  out_of_fuel : LiquidResult A

infixl 5 ◌>>=◌ ◌>>◌
abbrev pub ◌>>=◌ {ℓ κ} :
    {A : Type ℓ} {B : Type κ} → LiquidResult A → (A → LiquidResult B) → LiquidResult B
ok a >>= f = f a
err e >>= f = err e
out_of_fuel >>= f = out_of_fuel

abbrev pub ◌>>◌ {ℓ} : {B : Type ℓ} → LiquidResult (Unit {0}) → LiquidResult B → LiquidResult B
m >> k = m >>= λ _. k

abbrev pub guard : Bool → LiquidError → LiquidResult (Unit {0})
guard true e = ok tt
guard false e = err e

abbrev pub side_byte : OrderSide → ℕ
side_byte buy = 0
side_byte sell = 1

abbrev pub opposite_side : OrderSide → OrderSide
opposite_side buy = sell
opposite_side sell = buy

abbrev pub is_limit : OrderType → Bool
is_limit limit = true
is_limit market = false

pub >>=-eq-ok {ℓ κ} :
    {A : Type ℓ} {B : Type κ} (m : LiquidResult A) (f : A → LiquidResult B) {b : B}
    → (m >>= f) ≡ ok b
    → (a : A) × (m ≡ ok a) × (f a ≡ ok b)
>>=-eq-ok (ok a) f e = (a, refl, e)
>>=-eq-ok (err x) f e = cc
>>=-eq-ok out_of_fuel f e = cc

pub >>=-eq-out_of_fuel {ℓ κ} :
    {A : Type ℓ} {B : Type κ} (m : LiquidResult A) (f : A → LiquidResult B)
    → (m >>= f) ≡ out_of_fuel
    → (m ≡ out_of_fuel) ⊎ ((a : A) × (m ≡ ok a) × (f a ≡ out_of_fuel))
>>=-eq-out_of_fuel (ok a) f e = inr (a, refl, e)
>>=-eq-out_of_fuel (err x) f e = cc
>>=-eq-out_of_fuel out_of_fuel f e = inl refl

pub guard-eq-ok : (test : Bool) (x : LiquidError) → guard test x ≡ ok tt → test ≡ true
guard-eq-ok true x e = refl
guard-eq-ok false x e = cc

pub ok_elim : {A : Type 0} (P : A → Type 0) (x y : A) → ok x ≡ ok y → P x → P y
ok_elim P x y e p = let same : x ≡ y = cc e in rw⁻¹ same p

pub >>=-total {ℓ κ} :
    {A : Type ℓ} {B : Type κ} (m : LiquidResult A) (f : A → LiquidResult B)
    → m ≢ out_of_fuel
    → ((a : A) → m ≡ ok a → f a ≢ out_of_fuel)
    → (m >>= f) ≢ out_of_fuel
>>=-total (ok a) f p q = q a refl
>>=-total (err x) f p q = λ e. cc e
>>=-total out_of_fuel f p q = λ e. p refl
