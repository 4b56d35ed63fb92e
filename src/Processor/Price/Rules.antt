-- ===== src/Processor/Price/Rules.antt =====
-- `checkPriceValidity` accepts exactly the ticks that its rules describe, and reads no level outside
-- the arrays.
use ultra_mds.Base.{
  ℕ, ◌-◌, ◌≤◌, ◌≡◌, ◌↔◌, refl, ◌⊎◌, inl, inr, Bool, true, false, not, Option, some, [], ◌∷◌, ◌>>=◌,
  if◌then◌else◌, arith, Bool-cases,
}
use ultra_mds.Base.Int.{pos_part}
use ultra_mds.Double.{Double}
use ultra_mds.Tick.{TickData}
use ultra_mds.Config.{SpecialConfig}
use ultra_mds.Processor.{
  UnitProcessor, Outcome, passes, fails, Message.bad_last_price, Message.bad_limit_up,
  Message.bad_limit_down, Message.outside_limits, Message.bid_disorder, Message.ask_disorder,
  Message.inverted,
}
use ultra_mds.Processor.Price.{
  is_invalid_price, is_unquoted, bids_in_order, asks_in_order, is_outside_limits, is_inverted,
  check_levels, check_price_validity,
}
use ultra_mds.Processor.Verdict.{PassesWhen, PassesWhen-passes, PassesWhen-fails}
use ultra_mds.Processor.Price.Book.{Ordered, in_order_decides}

module _ {W : Type 0} ⦃d : Double W⦄ where
  abbrev pub levels_checked : SpecialConfig W → ℕ
  levels_checked config = pos_part (check_levels config)

  pub levels_checked-le : (config : SpecialConfig W) → levels_checked config ≤ 5
  levels_checked-le config = ground arith

module _ {W : Type 0} ⦃d : Double W⦄ (config : SpecialConfig W) (tick : TickData W) where
  abbrev pub InLimits : Type 0
  InLimits =
      let tolerance = d.mul tick.limit_up config.limit_price_tolerance_ratio in
      ((config.skip_zero_limit_price ≡ true)
        × ((d.lt d.nought tick.limit_up ≡ false) ⊎ (d.lt d.nought tick.limit_down ≡ false)))
      ⊎ ((d.lt tick.last_price (d.sub tick.limit_down tolerance) ≡ false)
          × (d.lt (d.add tick.limit_up tolerance) tick.last_price ≡ false))

  -- The best bid may exceed the best ask by the configured number of price steps.
  abbrev pub NotInverted : Type 0
  NotInverted =
      let allowed = d.mul (d.of_int config.max_invert_spread_tick) config.tick_size in
      (is_unquoted tick.bid_price.first ≡ true)
      ⊎ (is_unquoted tick.ask_price.first ≡ true)
      ⊎ (d.lt (d.add allowed d.epsilon) (d.sub tick.bid_price.first tick.ask_price.first) ≡ false)

  -- The rules for the prices of a tick.
  pub record IsPriceValid : Type 0 where
    pub last_price_valid : is_invalid_price tick.last_price ≡ false
    pub limit_up_valid : is_invalid_price tick.limit_up ≡ false
    pub limit_down_valid : is_invalid_price tick.limit_down ≡ false
    pub in_limits : InLimits
    pub bids_descend :
        Ordered (λ worse better. d.lt better worse) tick.bid_price (levels_checked config)
    pub asks_ascend :
        Ordered (λ worse better. d.lt worse better) tick.ask_price (levels_checked config)
    pub not_inverted : NotInverted

  InLimits_iff : (is_outside_limits config tick ≡ false) ↔ InLimits
  unfolding is_outside_limits
  InLimits_iff = ground arith

  NotInverted_iff : (is_inverted config tick ≡ false) ↔ NotInverted
  unfolding is_inverted
  NotInverted_iff = ground arith

module _ {W : Type 0} ⦃d : Double W⦄ (tick : TickData W) (p : UnitProcessor W) where
  -- What the code does with the results of the loops.
  abbrev book_verdict : Bool → Option Bool → Option (Outcome W)
  book_verdict bids asks_loop = (if bids then asks_loop else some false) >>= λ asks.
      if not bids
      then some (fails p (bid_disorder ∷ []))
      else if not asks
      then some (fails p (ask_disorder ∷ []))
      else if is_inverted p.config tick
      then some (fails p (inverted ∷ []))
      else some (passes p [])

  book_verdict-PassesWhen :
      (bids asks : Bool) {P B A : Type 0} {loop : Option Bool}
      → loop ≡ some asks
      → ((bids ≡ true) ↔ B)
      → ((asks ≡ true) ↔ A)
      → (P → B × A × (is_inverted p.config tick ≡ false))
      → (B → A → is_inverted p.config tick ≡ false → P)
      → PassesWhen (book_verdict bids loop) p P
  book_verdict-PassesWhen false asks l b a out into =
      PassesWhen-fails p bid_disorder [] (λ h. cc (b.1 (out h).0))
  book_verdict-PassesWhen true false l b a out into =
      rw l (PassesWhen-fails p ask_disorder [] (λ h. cc (a.1 (out h).1)))
  book_verdict-PassesWhen true true l b a out into = elim (Bool-cases (is_inverted p.config tick)) [
    | inl e ↦ rw (l, e) (PassesWhen-fails p inverted [] (λ h. cc (e, (out h).2)))
    | inr e ↦ rw (l, e) (PassesWhen-passes p (into (b.0 refl) (a.0 refl) e))
  ]

  book_decides :
      is_invalid_price tick.last_price ≡ false
      → is_invalid_price tick.limit_up ≡ false
      → is_invalid_price tick.limit_down ≡ false
      → is_outside_limits p.config tick ≡ false
      → let rounds = levels_checked p.config - 1 in
        PassesWhen
          (bids_in_order tick.bid_price rounds 1 >>= λ bids.
            book_verdict bids (asks_in_order tick.ask_price rounds 1))
          p
          (IsPriceValid p.config tick)
  unfolding bids_in_order asks_in_order
  book_decides last up down within =
      let n = levels_checked p.config in
      let fits = levels_checked-le p.config in
      let (bids, eb, b) =
        in_order_decides (λ worse better. d.lt better worse) tick.bid_price n fits in
      let (asks, ea, a) =
        in_order_decides (λ worse better. d.lt worse better) tick.ask_price n fits in
      let inverted_iff = NotInverted_iff p.config tick in
      rw eb (
        book_verdict-PassesWhen bids asks ea b a
          (λ v. (v.bids_descend, v.asks_ascend, inverted_iff.1 v.not_inverted))
          (λ bs as' e. record {
            last_price_valid = last;
            limit_up_valid = up;
            limit_down_valid = down;
            in_limits = (InLimits_iff p.config tick).0 within;
            bids_descend = bs;
            asks_ascend = as';
            not_inverted = inverted_iff.0 e;
          }))

  -- For every tick and configuration the check reads inside the arrays only, leaves the processor as
  -- it was, passes exactly the ticks that keep all the rules, and logs exactly when it fails.
  pub check_price_validity_iff :
      PassesWhen (check_price_validity tick p) p (IsPriceValid p.config tick)
  unfolding check_price_validity
  check_price_validity_iff = elim (Bool-cases (is_invalid_price tick.last_price)) [
    | inl e ↦ rw e (PassesWhen-fails p bad_last_price [] (λ v. cc (e, v.last_price_valid)))
    | inr last ↦ elim (Bool-cases (is_invalid_price tick.limit_up)) [
      | inl e ↦ rw (last, e) (PassesWhen-fails p bad_limit_up [] (λ v. cc (e, v.limit_up_valid)))
      | inr up ↦ elim (Bool-cases (is_invalid_price tick.limit_down)) [
        | inl e ↦
            rw (last, up, e)
              (PassesWhen-fails p bad_limit_down [] (λ v. cc (e, v.limit_down_valid)))
        | inr down ↦ elim (Bool-cases (is_outside_limits p.config tick)) [
          | inl e ↦
              rw (last, up, down, e)
                (PassesWhen-fails p outside_limits []
                  (λ v. cc (e, (InLimits_iff p.config tick).1 v.in_limits)))
          | inr within ↦ rw (last, up, down, within) (book_decides last up down within)
        ]
      ]
    ]
  ]
