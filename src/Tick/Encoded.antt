-- ===== src/Tick/Encoded.antt =====
-- A serialiser with its inverse, for the tests: the fields of a message one after the other.
use mathlib.Core.Option.{some-injective}
use ultra_mds.Base.{ℕ, zero, suc, ◌≡◌, refl, Option, none, some, List, [], ◌∷◌, ◌>>=◌, length}
use ultra_mds.Base.Int.{ℤ, pos, negsuc}
use ultra_mds.Base.Bytes.{Bytes}
use ultra_mds.Double.Fixed.{Fixed, not_a_number, units}
use ultra_mds.Tick.{TickDataMes}

abbrev put_int : ℤ → Bytes → Bytes
put_int (pos n) rest = 0 ∷ n ∷ rest
put_int (negsuc n) rest = 1 ∷ n ∷ rest

abbrev get_int : Bytes → Option (ℤ × Bytes)
get_int (zero ∷ n ∷ rest) = some (pos n, rest)
get_int (suc _ ∷ n ∷ rest) = some (negsuc n, rest)
get_int _ = none

pub get_int-put_int : (z : ℤ) (rest : Bytes) → get_int (put_int z rest) ≡ some (z, rest)
get_int-put_int (pos n) rest = refl
get_int-put_int (negsuc n) rest = refl

abbrev put_fixed : Fixed → Bytes → Bytes
put_fixed not_a_number rest = 0 ∷ rest
put_fixed (units z) rest = 1 ∷ put_int z rest

abbrev get_fixed : Bytes → Option (Fixed × Bytes)
get_fixed (zero ∷ rest) = some (not_a_number, rest)
get_fixed (suc _ ∷ rest) = get_int rest >>= λ (z, more). some (units z, more)
get_fixed [] = none

pub get_fixed-put_fixed : (x : Fixed) (rest : Bytes) → get_fixed (put_fixed x rest) ≡ some (x, rest)
get_fixed-put_fixed not_a_number rest = refl
get_fixed-put_fixed (units z) rest = rw (get_int-put_int z rest) refl

abbrev put_byte : ℕ → Bytes → Bytes
put_byte c rest = c ∷ rest

abbrev get_byte : Bytes → Option (ℕ × Bytes)
get_byte [] = none
get_byte (c ∷ rest) = some (c, rest)

pub record Code (A : Type 0) : Type 0 where
  pub put : A → Bytes → Bytes
  pub get : Bytes → Option (A × Bytes)
  pub get-put : (x : A) (rest : Bytes) → get (put x rest) ≡ some (x, rest)

abbrev int_code : Code ℤ
int_code = record { put = put_int; get = get_int; get-put = get_int-put_int }

abbrev fixed_code : Code Fixed
fixed_code = record { put = put_fixed; get = get_fixed; get-put = get_fixed-put_fixed }

abbrev byte_code : Code ℕ
byte_code = record { put = put_byte; get = get_byte; get-put = λ c rest. refl }

-- The number of the items, and the items.
module _ {A : Type 0} (code : Code A) where
  abbrev put_items : List A → Bytes → Bytes
  put_items [] rest = rest
  put_items (x ∷ xs) rest = code.put x (put_items xs rest)

  abbrev get_items : ℕ → Bytes → Option (List A × Bytes)
  get_items zero rest = some ([], rest)
  get_items (suc n) rest =
      code.get rest >>= λ (x, more). get_items n more >>= λ (xs, last). some (x ∷ xs, last)

  abbrev get_list : Bytes → Option (List A × Bytes)
  get_list [] = none
  get_list (n ∷ rest) = get_items n rest

  pub get_items-put_items :
      (xs : List A) (rest : Bytes) → get_items (length xs) (put_items xs rest) ≡ some (xs, rest)
  get_items-put_items [] rest = refl
  get_items-put_items (x ∷ xs) rest =
      rw (code.get-put x (put_items xs rest), get_items-put_items xs rest) refl

  abbrev list_code : Code (List A)
  list_code = record {
    put = λ xs rest. length xs ∷ put_items xs rest;
    get = get_list;
    get-put = get_items-put_items;
  }

abbrev prices : Code (List Fixed)
prices = list_code fixed_code

abbrev volumes : Code (List ℤ)
volumes = list_code int_code

abbrev texts : Code Bytes
texts = list_code byte_code

unfoldable pub encode : TickDataMes Fixed → Option Bytes
encode m = some (
    fixed_code.put m.last_price (
      prices.put m.bid_price (
        prices.put m.ask_price (
          fixed_code.put m.limit_up (
            fixed_code.put m.limit_down (
              int_code.put m.volume (
                int_code.put m.updatemill (
                  volumes.put m.bid_volume (
                    volumes.put m.ask_volume (
                      texts.put m.instrument_id (
                        texts.put m.exchange_id (
                          texts.put m.update_time
                            (texts.put m.action_day (texts.put m.trading_day []))))))))))))))

unfoldable pub decode : Bytes → Option (TickDataMes Fixed)
decode text = do
  (last_price, r₁) ← fixed_code.get text
  (bid_price, r₂) ← prices.get r₁
  (ask_price, r₃) ← prices.get r₂
  (limit_up, r₄) ← fixed_code.get r₃
  (limit_down, r₅) ← fixed_code.get r₄
  (volume, r₆) ← int_code.get r₅
  (updatemill, r₇) ← int_code.get r₆
  (bid_volume, r₈) ← volumes.get r₇
  (ask_volume, r₉) ← volumes.get r₈
  (instrument_id, s₁) ← texts.get r₉
  (exchange_id, s₂) ← texts.get s₁
  (update_time, s₃) ← texts.get s₂
  (action_day, s₄) ← texts.get s₃
  (trading_day, _) ← texts.get s₄
  some (record {
    last_price = last_price;
    bid_price = bid_price;
    ask_price = ask_price;
    limit_up = limit_up;
    limit_down = limit_down;
    volume = volume;
    updatemill = updatemill;
    bid_volume = bid_volume;
    ask_volume = ask_volume;
    instrument_id = instrument_id;
    exchange_id = exchange_id;
    update_time = update_time;
    action_day = action_day;
    trading_day = trading_day;
  })

pub decode-encode :
    (m : TickDataMes Fixed) (text : Bytes) → encode m ≡ some text → decode text ≡ some m
unfolding encode decode
decode-encode m text e = rw (← some-injective _ _ e) (
    rw
      (
        fixed_code.get-put m.last_price _,
        prices.get-put m.bid_price _,
        prices.get-put m.ask_price _,
        fixed_code.get-put m.limit_up _,
        fixed_code.get-put m.limit_down _,
        int_code.get-put m.volume _,
        int_code.get-put m.updatemill _,
        volumes.get-put m.bid_volume _,
        volumes.get-put m.ask_volume _,
        texts.get-put m.instrument_id _,
        texts.get-put m.exchange_id _,
        texts.get-put m.update_time _,
        texts.get-put m.action_day _,
        texts.get-put m.trading_day _,
      )
      refl)
