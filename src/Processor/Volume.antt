-- ===== src/Processor/Volume.antt =====
-- UnitProcessor::checkVolumeValidity and checkAbnormalPacket.
pub mod Rules
pub mod Feed
use ultra_mds.Base.{
  ℕ, zero, suc, ◌+◌, Bool, true, ◌&&◌, Option, some, List, [], ◌∷◌, ◌>>=◌, if◌then◌else◌,
}
use ultra_mds.Base.Int.{ℤ, pos, pos_part, ltb_ℤ, eq_ℤ, min_ℤ}
use ultra_mds.Double.{Double}
use ultra_mds.Tick.{TickData, Five, at}
use ultra_mds.Processor.{
  UnitProcessor, Outcome, Check, Message, passes, fails, Message.negative_volume,
  Message.negative_bid_volume, Message.negative_ask_volume, Message.empty_packet,
}

-- The rounds of the loop from index i with `left` to go; the log line of the level that it stops at.
unfoldable pub negative_level : Five ℤ → Five ℤ → ℕ → ℕ → Option (List Message)
negative_level bid ask zero i = some []
negative_level bid ask (suc left) i = do
  b ← at bid i
  a ← at ask i
  let rest = negative_level bid ask left (i + 1)
  if ltb_ℤ b (pos 0)
      then some (negative_bid_volume ∷ [])
      else if ltb_ℤ a (pos 0)
      then some (negative_ask_volume ∷ [])
      else rest

module _ {W : Type 0} where
  unfoldable pub check_volume_validity : TickData W → Check W
  check_volume_validity tick p =
      let rounds = pos_part (min_ℤ p.config.check_bid_ask_levels (pos 5)) in
      if ltb_ℤ tick.volume (pos 0) then some (fails p (negative_volume ∷ [])) else do
        found ← negative_level tick.bid_volume tick.ask_volume rounds 0
        some (elim found [ [] ↦ passes p [] | m ∷ ms ↦ fails p (m ∷ ms) ])

module _ {W : Type 0} ⦃d : Double W⦄ where
  unfoldable pub is_all_zero : TickData W → Bool
  is_all_zero tick =
      d.eq tick.last_price d.nought
      && d.eq tick.bid_price.first d.nought
      && d.eq tick.ask_price.first d.nought
      && eq_ℤ tick.volume (pos 0)
      && eq_ℤ tick.bid_volume.first (pos 0)
      && eq_ℤ tick.ask_volume.first (pos 0)

  unfoldable pub check_abnormal_packet : TickData W → UnitProcessor W → Outcome W
  check_abnormal_packet tick p =
      if is_all_zero tick then fails p (empty_packet ∷ []) else passes p []
