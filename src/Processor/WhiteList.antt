-- ===== src/Processor/WhiteList.antt =====
-- UnitProcessor::CheckWhiteList.
pub mod Rules
use ultra_mds.Base.{
  ◌≡◌, refl, Bool, true, false, not, ◌&&◌, ◌||◌, some, List, [], ◌∷◌, if◌then◌else◌, arith,
}
use ultra_mds.Base.Bytes.{Bytes, same, c_string, same_iff}
use ultra_mds.Tick.{TickData, short_text_size}
use ultra_mds.Processor.{UnitProcessor, Outcome, Message.not_in_whitelist, passes, fails}

-- `std::find` over the list.
unfoldable pub is_listed : List Bytes → Bytes → Bool
is_listed [] e = false
is_listed (x ∷ xs) e = same x e || is_listed xs e

abbrev pub is_empty : List Bytes → Bool
is_empty [] = true
is_empty (_ ∷ _) = false

module _ {W : Type 0} where
  unfoldable pub check_white_list : TickData W → UnitProcessor W → Outcome W
  check_white_list tick p =
      let exch_id = c_string short_text_size tick.exchange_id in
      let whitelist = p.config.exchange_whitelist in
      if not (is_empty whitelist) && not (is_listed whitelist exch_id)
      then fails p (not_in_whitelist ∷ [])
      else passes p []
