-- ===== src/Tick.antt =====
-- SharedDefine/TickData.h and tick_data.proto: a tick as the program keeps it, built from the
-- exchange's record, and the message that is sent for it. A pointer to a `UnitProcessor` is the index
-- of the processor in the owner's vector; `none` is `nullptr`.
pub mod Message
pub mod Encoded
use ultra_mds.Base.{
  ℕ, zero, suc, ◌<◌, ◌≡◌, refl, arith, Option, none, some, List, [], ◌∷◌, ◌++◌, take,
}
use ultra_mds.Ctp.{DepthMarketData}
use ultra_mds.Base.Int.{ℤ, pos}
use ultra_mds.Base.Bytes.{Bytes, c_string}

-- `T a[5]`.
pub record Five (A : Type 0) : Type 0 where
  pub first : A
  pub second : A
  pub third : A
  pub fourth : A
  pub fifth : A

-- `a[i]`; `none` is a read outside the array.
abbrev pub at : {A : Type 0} → Five A → ℕ → Option A
at a zero = some a.first
at a (suc zero) = some a.second
at a (suc (suc zero)) = some a.third
at a (suc (suc (suc zero))) = some a.fourth
at a (suc (suc (suc (suc zero)))) = some a.fifth
at a (suc (suc (suc (suc (suc _))))) = none

pub at_total : {A : Type 0} (a : Five A) (i : ℕ) → i < 5 → (x : A) × (at a i ≡ some x)
at_total a zero h = (a.first, refl)
at_total a (suc zero) h = (a.second, refl)
at_total a (suc (suc zero)) h = (a.third, refl)
at_total a (suc (suc (suc zero))) h = (a.fourth, refl)
at_total a (suc (suc (suc (suc zero)))) h = (a.fifth, refl)
at_total a (suc (suc (suc (suc (suc i))))) h = absurd (omega arith)

abbrev pub levels : {A : Type 0} → Five A → List A
levels a = a.first ∷ a.second ∷ a.third ∷ a.fourth ∷ a.fifth ∷ []

pub record TickData (W : Type 0) : Type 0 where
  pub last_price : W
  pub bid_price : Five W
  pub ask_price : Five W
  pub limit_up : W
  pub limit_down : W
  pub volume : ℤ
  pub updatemill : ℤ
  pub bid_volume : Five ℤ
  pub ask_volume : Five ℤ
  pub detector : Option ℕ
  pub local_receive_time : ℤ
  pub instrument_id : Bytes
  pub exchange_id : Bytes
  pub update_time : Bytes
  pub action_day : Bytes
  pub trading_day : Bytes

-- `int a[5] = { 0 }`.
abbrev pub no_volumes : Five ℤ
no_volumes = record { first = pos 0; second = pos 0; third = pos 0; fourth = pos 0; fifth = pos 0 }

abbrev pub instrument_id_size : ℕ
instrument_id_size = 81

abbrev pub short_text_size : ℕ
short_text_size = 9

module _ {W : Type 0} where
  -- `TickData() = default`: the default member initialisers. The arrays of characters have none, and hold
  -- whatever bytes they are given here.
  unfoldable pub default_tick : W → Bytes → Bytes → Bytes → Bytes → Bytes → TickData W
  default_tick zero_price instrument exchange time action trading = record {
    last_price = zero_price;
    bid_price = record {
      first = zero_price;
      second = zero_price;
      third = zero_price;
      fourth = zero_price;
      fifth = zero_price;
    };
    ask_price = record {
      first = zero_price;
      second = zero_price;
      third = zero_price;
      fourth = zero_price;
      fifth = zero_price;
    };
    limit_up = zero_price;
    limit_down = zero_price;
    volume = pos 0;
    updatemill = pos 0;
    bid_volume = no_volumes;
    ask_volume = no_volumes;
    detector = none;
    local_receive_time = pos 0;
    instrument_id = instrument;
    exchange_id = exchange;
    update_time = time;
    action_day = action;
    trading_day = trading;
  }

  -- The constructor. Its initialiser list does not name the two volume arrays, which keep their
  -- default member initialisers.
  unfoldable pub make_tick : DepthMarketData W → Option ℕ → ℤ → TickData W
  make_tick data' detector received = record {
    last_price = data'.last_price;
    bid_price = record {
      first = data'.bid_price1;
      second = data'.bid_price2;
      third = data'.bid_price3;
      fourth = data'.bid_price4;
      fifth = data'.bid_price5;
    };
    ask_price = record {
      first = data'.ask_price1;
      second = data'.ask_price2;
      third = data'.ask_price3;
      fourth = data'.ask_price4;
      fifth = data'.ask_price5;
    };
    limit_up = data'.upper_limit_price;
    limit_down = data'.lower_limit_price;
    volume = data'.volume;
    updatemill = data'.update_millisec;
    bid_volume = no_volumes;
    ask_volume = no_volumes;
    detector = detector;
    local_receive_time = received;
    instrument_id = take instrument_id_size data'.instrument_id;
    exchange_id = take short_text_size data'.exchange_id;
    update_time = take short_text_size data'.update_time;
    action_day = take short_text_size data'.action_day;
    trading_day = take short_text_size data'.trading_day;
  }

-- The generated message class, with its fields in the order of tick_data.proto.
pub record TickDataMes (W : Type 0) : Type 0 where
  pub last_price : W
  pub bid_price : List W
  pub ask_price : List W
  pub limit_up : W
  pub limit_down : W
  pub volume : ℤ
  pub updatemill : ℤ
  pub bid_volume : List ℤ
  pub ask_volume : List ℤ
  pub instrument_id : Bytes
  pub exchange_id : Bytes
  pub update_time : Bytes
  pub action_day : Bytes
  pub trading_day : Bytes

module _ {W : Type 0} where
  -- `add_…` appends to a repeated field, `set_…` replaces a field.
  unfoldable pub fill_proto_data : TickData W → TickDataMes W → TickDataMes W
  fill_proto_data tick mes = record {
    last_price = tick.last_price;
    bid_price = mes.bid_price ++ levels tick.bid_price;
    ask_price = mes.ask_price ++ levels tick.ask_price;
    limit_up = tick.limit_up;
    limit_down = tick.limit_down;
    volume = tick.volume;
    updatemill = tick.updatemill;
    bid_volume = mes.bid_volume ++ levels tick.bid_volume;
    ask_volume = mes.ask_volume ++ levels tick.ask_volume;
    instrument_id = c_string instrument_id_size tick.instrument_id;
    exchange_id = c_string short_text_size tick.exchange_id;
    update_time = c_string short_text_size tick.update_time;
    action_day = c_string short_text_size tick.action_day;
    trading_day = c_string short_text_size tick.trading_day;
  }
