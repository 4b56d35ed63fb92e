-- ===== src/Tick/Message.antt =====
-- What a subscriber of the UDP group reads off the message of a tick.
use ultra_mds.Base.{
  ℕ, zero, suc, ◌<◌, ◌≡◌, ◌≢◌, refl, Option, [], ◌∷◌, ◌++◌, arith, length, All, take,
}
use ultra_mds.Base.Int.{ℤ, pos}
use ultra_mds.Base.Bytes.{Bytes, c_string}
use ultra_mds.Ctp.{DepthMarketData}
use ultra_mds.Tick.{
  TickDataMes, make_tick, fill_proto_data, instrument_id_size, short_text_size, no_volumes, levels,
}

-- A NUL-terminated text that fits is read back whole, whatever follows its NUL.
c_string-take :
    (n : ℕ) (s rest : Bytes)
    → length s < n
    → All (λ c. c ≢ 0) s
    → c_string n (take n (s ++ 0 ∷ rest)) ≡ s
unfolding c_string
c_string-take zero s rest h a = absurd (omega arith)
c_string-take (suc n) [] rest h a = refl
c_string-take (suc n) (c ∷ s) rest h (p, a) = ground (arith, c_string-take n s rest)

-- The array holds the text s, which ends in it.
abbrev pub IsText : ℕ → Bytes → Bytes → Type 0
IsText n s array = (rest : Bytes) × (array ≡ s ++ 0 ∷ rest) × (length s < n) × All (λ c. c ≢ 0) s

IsText-c_string : (n : ℕ) (s array : Bytes) → IsText n s array → c_string n (take n array) ≡ s
IsText-c_string n s array (rest, e, h, a) = rw e (c_string-take n s rest h a)

-- A new message.
abbrev pub empty_message : {W : Type 0} → W → TickDataMes W
empty_message w = record {
  last_price = w;
  bid_price = [];
  ask_price = [];
  limit_up = w;
  limit_down = w;
  volume = pos 0;
  updatemill = pos 0;
  bid_volume = [];
  ask_volume = [];
  instrument_id = [];
  exchange_id = [];
  update_time = [];
  action_day = [];
  trading_day = [];
}

-- The record's texts, which end in their arrays.
pub record Texts {W : Type 0} (data' : DepthMarketData W)
    (instrument exchange time action trading : Bytes) : Type 0 where
  pub instrument_id_lem : IsText instrument_id_size instrument data'.instrument_id
  pub exchange_id_lem : IsText short_text_size exchange data'.exchange_id
  pub update_time_lem : IsText short_text_size time data'.update_time
  pub action_day_lem : IsText short_text_size action data'.action_day
  pub trading_day_lem : IsText short_text_size trading data'.trading_day

-- The message of a record has its prices, its volume, its millisecond and its texts, whatever follows
-- their ends in the arrays. The ten volumes of the levels are 0, whatever the record's are.
pub fill_proto_data-make_tick :
    {W : Type 0} (data' : DepthMarketData W) (detector : Option ℕ) (received : ℤ) (zero_price : W)
    (instrument exchange time action trading : Bytes)
    → Texts data' instrument exchange time action trading
    → fill_proto_data (make_tick data' detector received) (empty_message zero_price) ≡ record {
      last_price = data'.last_price;
      bid_price =
          data'.bid_price1 ∷ data'.bid_price2 ∷ data'.bid_price3 ∷ data'.bid_price4
          ∷ data'.bid_price5 ∷ [];
      ask_price =
          data'.ask_price1 ∷ data'.ask_price2 ∷ data'.ask_price3 ∷ data'.ask_price4
          ∷ data'.ask_price5 ∷ [];
      limit_up = data'.upper_limit_price;
      limit_down = data'.lower_limit_price;
      volume = data'.volume;
      updatemill = data'.update_millisec;
      bid_volume = levels no_volumes;
      ask_volume = levels no_volumes;
      instrument_id = instrument;
      exchange_id = exchange;
      update_time = time;
      action_day = action;
      trading_day = trading;
    }
unfolding make_tick fill_proto_data
fill_proto_data-make_tick data' detector received zero_price instrument exchange time action trading
      texts =
    rw
      (
        IsText-c_string instrument_id_size instrument data'.instrument_id texts.instrument_id_lem,
        IsText-c_string short_text_size exchange data'.exchange_id texts.exchange_id_lem,
        IsText-c_string short_text_size time data'.update_time texts.update_time_lem,
        IsText-c_string short_text_size action data'.action_day texts.action_day_lem,
        IsText-c_string short_text_size trading data'.trading_day texts.trading_day_lem,
      )
      refl
