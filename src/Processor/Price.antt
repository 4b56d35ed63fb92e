-- ===== src/Processor/Price.antt =====
-- UnitProcessor::isInvalidPrice and checkPriceValidity.
pub mod Book
pub mod Rules
pub mod Sorted
use ultra_mds.Base.{
  ℕ, zero, suc, ◌+◌, ◌-◌, Bool, true, false, not, ◌&&◌, ◌||◌, Option, none, some, List, [], ◌∷◌,
  ◌>>=◌, if◌then◌else◌,
}
use ultra_mds.Base.Int.{ℤ, pos, pos_part, min_ℤ}
use ultra_mds.Double.{Double}
use ultra_mds.Tick.{TickData, Five, at}
use ultra_mds.Config.{SpecialConfig}
use ultra_mds.Processor.{
  Check, passes, fails, Message.bad_last_price, Message.bad_limit_up, Message.bad_limit_down,
  Message.outside_limits, Message.bid_disorder, Message.ask_disorder, Message.inverted,
}

abbrev pub max_bid_ask_levels : ℤ
max_bid_ask_levels = pos 5

module _ {W : Type 0} ⦃d : Double W⦄ where
  unfoldable pub is_invalid_price : W → Bool
  is_invalid_price price =
      d.is_nan price || d.is_inf price || d.lt price d.nought || d.eq price d.dbl_max

  -- A level that takes no part in the comparison.
  abbrev pub is_unquoted : W → Bool
  is_unquoted price = is_invalid_price price || d.eq price d.nought

  -- The loop over the levels of one side, from index i with `left` rounds to go. It fails at a pair
  -- of quoted neighbours that `disordered` holds of.
  unfoldable pub in_order : (W → W → Bool) → Five W → ℕ → ℕ → Option Bool
  in_order disordered side zero i = some true
  in_order disordered side (suc left) i = do
    worse ← at side i
    better ← at side (i - 1)
    let rest = in_order disordered side left (i + 1)
    if is_invalid_price worse || is_invalid_price better
        then rest
        else if d.eq worse d.nought || d.eq better d.nought
        then rest
        else if disordered worse better
        then some false
        else rest

  unfoldable pub bids_in_order : Five W → ℕ → ℕ → Option Bool
  unfolding in_order
  bids_in_order = in_order (λ worse better. d.lt better worse)

  unfoldable pub asks_in_order : Five W → ℕ → ℕ → Option Bool
  unfolding in_order
  asks_in_order = in_order (λ worse better. d.lt worse better)

  unfoldable pub is_outside_limits : SpecialConfig W → TickData W → Bool
  is_outside_limits config tick =
      let tolerance = d.mul tick.limit_up config.limit_price_tolerance_ratio in
      (not config.skip_zero_limit_price
        || (d.lt d.nought tick.limit_up && d.lt d.nought tick.limit_down))
      && (d.lt tick.last_price (d.sub tick.limit_down tolerance)
          || d.lt (d.add tick.limit_up tolerance) tick.last_price)

  unfoldable pub is_inverted : SpecialConfig W → TickData W → Bool
  is_inverted config tick =
      let bid = tick.bid_price.first in
      let ask = tick.ask_price.first in
      let max_allowed = d.mul (d.of_int config.max_invert_spread_tick) config.tick_size in
      not (is_invalid_price bid)
      && not (is_invalid_price ask)
      && not (d.eq bid d.nought)
      && not (d.eq ask d.nought)
      && d.lt (d.add max_allowed d.epsilon) (d.sub bid ask)

  abbrev pub check_levels : SpecialConfig W → ℤ
  check_levels config = min_ℤ config.check_bid_ask_levels max_bid_ask_levels

  unfoldable pub check_price_validity : TickData W → Check W
  check_price_validity tick p =
      let rounds = pos_part (check_levels p.config) - 1 in
      if is_invalid_price tick.last_price
      then some (fails p (bad_last_price ∷ []))
      else if is_invalid_price tick.limit_up
      then some (fails p (bad_limit_up ∷ []))
      else if is_invalid_price tick.limit_down
      then some (fails p (bad_limit_down ∷ []))
      else if is_outside_limits p.config tick
      then some (fails p (outside_limits ∷ []))
      else do
        bids ← bids_in_order tick.bid_price rounds 1
        asks ← if bids then asks_in_order tick.ask_price rounds 1 else some false
        if not bids
            then some (fails p (bid_disorder ∷ []))
            else if not asks
            then some (fails p (ask_disorder ∷ []))
            else if is_inverted p.config tick
            then some (fails p (inverted ∷ []))
            else some (passes p [])
