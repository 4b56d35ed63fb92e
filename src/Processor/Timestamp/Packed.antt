-- ===== src/Processor/Timestamp/Packed.antt =====
-- The packed timestamp as a reading of a clock: what `combineTimestamp` returns, and when.
use native.Mathlib.Nat.{mul-le-mul, pow-suc, le_refl}
use ultra_mds.Base.{
  ℕ, zero, suc, ◌+◌, ◌-◌, ◌*◌, ◌^◌, ◌≤◌, ◌<◌, ◌≡◌, ◌⊎◌, inl, inr, false, not, ◌||◌, some, List, [],
  ◌∷◌, if◌then◌else◌, get_or, ◌==◌, arith, Bool-cases, Option-cases,
}
use ultra_mds.Base.Int.{ℤ, pos, negsuc, ◌+ℤ◌, ◌*ℤ◌, outside, nat_of_outside}
use ultra_mds.Base.Bytes.{Bytes, bytes, same, is_digit}
use ultra_mds.Tick.{TickData}
use ultra_mds.Config.{SpecialConfig}
use ultra_mds.Processor.{Message}
use ultra_mds.Processor.Timestamp.{str_to_int64_from, str_to_int64, two_digits, combine_timestamp}

-- A moment as the exchange writes it.
pub record Moment : Type 0 where
  pub day : ℕ
  pub hour : ℕ
  pub minute : ℕ
  pub second : ℕ
  pub millisecond : ℕ

pub record IsMoment (c : Moment) : Type 0 where
  pub day_lt : c.day < 10 ^ 8
  pub hour_le : c.hour ≤ 23
  pub minute_le : c.minute ≤ 59
  pub second_le : c.second ≤ 59
  pub millisecond_le : c.millisecond ≤ 999

-- The decimal digits YYYYMMDDHHMMSSmmm.
abbrev pub packed : Moment → ℕ
packed c =
    c.day * 1_000_000_000
    + c.hour * 10_000_000
    + c.minute * 100_000
    + c.second * 1000
    + c.millisecond

-- The milliseconds since midnight.
abbrev pub elapsed : Moment → ℕ
elapsed c = c.hour * 3_600_000 + c.minute * 60_000 + c.second * 1000 + c.millisecond

module _ {W : Type 0} where
  abbrev pub day_text : SpecialConfig W → TickData W → Bytes
  day_text config tick =
      if same config.timestamp_base (bytes "TradingDay") then tick.trading_day else tick.action_day

  -- The tick's texts and numbers are those of a moment, by the code's own reading of two digits.
  pub record Shows (config : SpecialConfig W) (tick : TickData W) (c : Moment) : Type 0 where
    pub first_colon : get_or tick.update_time 2 0 ≡ b':'
    pub second_colon : get_or tick.update_time 5 0 ≡ b':'
    pub hour_eq : two_digits tick.update_time 0 ≡ pos c.hour
    pub minute_eq : two_digits tick.update_time 3 ≡ pos c.minute
    pub second_eq : two_digits tick.update_time 6 ≡ pos c.second
    pub millisecond_eq : tick.updatemill ≡ pos c.millisecond
    pub day_eq : str_to_int64 (day_text config tick) 8 ≡ some c.day

one_more_digit : (a b x y n : ℕ) → a ≤ b * 10 → y ≡ x * 10 → n < a * x → n < b * y
one_more_digit a b x y n h e lt = rw e (omega (arith, mul-le-mul h (le_refl x)))

str_to_int64_from-lt :
    (s : Bytes) (left i out : ℕ) {n : ℕ}
    → str_to_int64_from s left i out ≡ some n
    → n < (out + 1) * 10 ^ left
unfolding str_to_int64_from
str_to_int64_from-lt s zero i out h = ground arith
str_to_int64_from-lt s (suc left) i out {n} h =
    let c = get_or s i 0 in
    elim (Bool-cases (is_digit c)) [
      | inl digit ↦
          let out' = out * 10 + (c - b'0') in
          let step : out' + 1 ≤ (out + 1) * 10 = ground arith in
          let rest : str_to_int64_from s left (i + 1) out' ≡ some n = ground arith in
          one_more_digit _ (out + 1) (10 ^ left) _ _ step (pow-suc 10 left)
            (str_to_int64_from-lt s left (i + 1) out' rest)
      | inr other ↦ absurd (ground arith)
    ]

-- Eight digits are a number below 100,000,000.
str_to_int64-lt : (s : Bytes) {n : ℕ} → str_to_int64 s 8 ≡ some n → n < 10 ^ 8
unfolding str_to_int64
str_to_int64-lt s h = omega (arith, str_to_int64_from-lt s 8 0 0 h)

packed_ℤ :
    (c : Moment)
    → pos c.day *ℤ pos 1_000_000_000
        +ℤ pos c.hour *ℤ pos 10_000_000
        +ℤ pos c.minute *ℤ pos 100_000
        +ℤ pos c.second *ℤ pos 1000
        +ℤ pos c.millisecond
      ≡ pos (packed c)
unfolding ◌+ℤ◌ ◌*ℤ◌
packed_ℤ c = ground arith

module _ {W : Type 0} (config : SpecialConfig W) (tick : TickData W) where
  -- On a tick that shows a moment the code returns its digits and logs nothing.
  pub combine_timestamp-Shows :
      (c : Moment)
      → IsMoment c
      → Shows config tick c
      → combine_timestamp config tick ≡ (pos (packed c), [])
  unfolding combine_timestamp
  combine_timestamp-Shows c v s = ground (arith, packed_ℤ c)

  abbrev pub IsRefused : ℤ × List Message → Type 0
  IsRefused r = (m : Message) × (r ≡ (negsuc 0, m ∷ []))

  abbrev pub IsRead : ℤ × List Message → Type 0
  IsRead r = (c : Moment) × IsMoment c × Shows config tick c × (r ≡ (pos (packed c), []))

  read :
      not (get_or tick.update_time 2 0 == b':') || not (get_or tick.update_time 5 0 == b':') ≡ false
      → outside (pos 0) (pos 23) (two_digits tick.update_time 0)
          || outside (pos 0) (pos 59) (two_digits tick.update_time 3)
          || outside (pos 0) (pos 59) (two_digits tick.update_time 6)
        ≡ false
      → outside (pos 0) (pos 999) tick.updatemill ≡ false
      → (day : ℕ) → str_to_int64 (day_text config tick) 8 ≡ some day
      → IsRead (combine_timestamp config tick)
  read colons clock millisecond day e =
      let (h, h_eq, h_le) = nat_of_outside (two_digits tick.update_time 0) 23 (ground arith) in
      let (m, m_eq, m_le) = nat_of_outside (two_digits tick.update_time 3) 59 (ground arith) in
      let (s, s_eq, s_le) = nat_of_outside (two_digits tick.update_time 6) 59 (ground arith) in
      let (ms, ms_eq, ms_le) = nat_of_outside tick.updatemill 999 millisecond in
      let c : Moment = record { day = day; hour = h; minute = m; second = s; millisecond = ms } in
      let valid : IsMoment c = record {
        day_lt = str_to_int64-lt (day_text config tick) e;
        hour_le = h_le;
        minute_le = m_le;
        second_le = s_le;
        millisecond_le = ms_le;
      } in
      let shows : Shows config tick c = record {
        first_colon = ground arith;
        second_colon = ground arith;
        hour_eq = h_eq;
        minute_eq = m_eq;
        second_eq = s_eq;
        millisecond_eq = ms_eq;
        day_eq = e;
      } in
      (c, valid, shows, combine_timestamp-Shows c valid shows)

  -- Every tick is refused with -1 and one log line, or shows a moment whose digits are returned with
  -- no log line.
  pub combine_timestamp_cases :
      IsRefused (combine_timestamp config tick) ⊎ IsRead (combine_timestamp config tick)
  unfolding combine_timestamp
  combine_timestamp_cases =
      elim (Bool-cases (not (get_or time 2 0 == b':') || not (get_or time 5 0 == b':'))) [
        | inl e ↦ inl (Message.bad_colons, rw e)
        | inr colons ↦
            elim (Bool-cases (
              outside (pos 0) (pos 23) hour
              || outside (pos 0) (pos 59) minute
              || outside (pos 0) (pos 59) second)) [
                | inl e ↦ inl (Message.bad_clock, rw (colons, e))
                | inr clock ↦ elim (Bool-cases (outside (pos 0) (pos 999) tick.updatemill)) [
                  | inl e ↦ inl (Message.bad_millisecond, rw (colons, clock, e))
                  | inr millisecond ↦ elim (Option-cases (str_to_int64 (day_text config tick) 8)) [
                    | inl e ↦ inl (Message.bad_day, rw (colons, clock, millisecond, e))
                    | inr (day, e) ↦ inr (read colons clock millisecond day e)
                  ]
                ]
              ]
      ]
    where
      time : Bytes
      time = tick.update_time

      hour : ℤ
      hour = two_digits time 0

      minute : ℤ
      minute = two_digits time 3

      second : ℤ
      second = two_digits time 6
