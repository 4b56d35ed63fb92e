-- ===== src/Processor/Price/Sorted.antt =====
-- A whole side of the book is sorted when all its levels are quoted.
use mathlib.Core.Option.{some-injective}
use native.Mathlib.Decide.{dec_lt}
use ultra_mds.Base.{
  ℕ, zero, suc, ◌≤◌, ◌<◌, ◌≡◌, sym, ap, ◌∙◌, Bool, true, false, Option, none, some, arith,
}
use ultra_mds.Double.{Double, IsDouble}
use ultra_mds.Tick.{TickData, Five, at, at_total}
use ultra_mds.Processor.{UnitProcessor, Outcome}
use ultra_mds.Processor.Verdict.{PassesWhen}
use ultra_mds.Processor.Price.{is_invalid_price, is_unquoted, check_price_validity}
use ultra_mds.Processor.Price.Book.{Ordered}
use ultra_mds.Processor.Price.Rules.{
  IsPriceValid, levels_checked, levels_checked-le, check_price_validity_iff,
}

module _ {W : Type 0} ⦃d : Double W⦄ where
  abbrev pub AllQuoted : Five W → ℕ → Type 0
  AllQuoted side n = (i : ℕ) (x : W) → i < n → at side i ≡ some x → is_unquoted x ≡ false

  quoted_not_nan : (x : W) → is_unquoted x ≡ false → d.is_nan x ≡ false
  unfolding is_invalid_price
  quoted_not_nan x h = ground arith

  -- A relation that holds of quoted neighbours and is transitive holds of all pairs of levels.
  module _ (disordered : W → W → Bool) (R : W → W → Type 0)
      (neighbours : (worse better : W)
        → is_unquoted worse ≡ false
        → is_unquoted better ≡ false
        → disordered worse better ≡ false
        → R worse better)
      (chain : (x y z : W) → R x y → R y z → R x z) (side : Five W) (n : ℕ) (fits : n ≤ 5)
      (quoted : AllQuoted side n) (ordered : Ordered disordered side n) where
    Ordered-pairs :
        (i j : ℕ) (x y : W) → i < j → j < n → at side i ≡ some x → at side j ≡ some y → R y x
    Ordered-pairs i zero x y lt top ex ey = absurd (omega arith)
    Ordered-pairs i (suc k) x y lt top ex ey =
        let (z, ez) = at_total side k (omega arith) in
        let y_quoted = quoted (suc k) y top ey in
        let z_quoted = quoted k z (omega arith) ez in
        let step = neighbours y z y_quoted z_quoted (ordered k y z top ey ez y_quoted z_quoted) in
        elim (dec_lt i k) [
          | yes further ↦ chain y z x step (Ordered-pairs i k x z further (omega arith) ex ez)
          | no next ↦
              let same : k ≡ i = omega arith in
              let z_eq : z ≡ x = some-injective _ _ (sym ez ∙ rw same ex) in rw (← z_eq) step
        ]

-- What passing says, with the call's own outcome.
PassesWhen-rule :
    {W : Type 0} {P : Type 0} (r : Option (Outcome W)) (p : UnitProcessor W) {o : Outcome W}
    → PassesWhen r p P
    → r ≡ some o
    → o.passed ≡ true
    → P
PassesWhen-rule none p h e t = absurd h
PassesWhen-rule (some q) p h e t =
    h.1.0 (ap (λ (x : Outcome _). x.passed) (some-injective _ _ e) ∙ t)

module _ {W : Type 0} ⦃d : Double W⦄ (laws : IsDouble W) (tick : TickData W)
    (p : UnitProcessor W) where
  le_of_quoted :
      (x y : W) → is_unquoted x ≡ false → is_unquoted y ≡ false → d.lt y x ≡ false → d.le x y ≡ true
  le_of_quoted x y a b = laws.le_of_not_lt x y (quoted_not_nan x a) (quoted_not_nan y b)

  module _ {o : Outcome W} (e : check_price_validity tick p ≡ some o) (t : o.passed ≡ true) where
    passed_rules : IsPriceValid p.config tick
    passed_rules = PassesWhen-rule _ p (check_price_validity_iff tick p) e t

    -- If a tick passes the price check and all the bids that are checked are quoted, they are sorted:
    -- the bid of a level is at most that of every level above it.
    pub check_price_validity-bids :
        AllQuoted tick.bid_price (levels_checked p.config)
        → (i j : ℕ) (x y : W) → i < j
        → j < levels_checked p.config
        → at tick.bid_price i ≡ some x
        → at tick.bid_price j ≡ some y
        → d.le y x ≡ true
    check_price_validity-bids quoted =
        Ordered-pairs (λ worse better. d.lt better worse) (λ a b. d.le a b ≡ true) le_of_quoted
          laws.le_trans tick.bid_price (levels_checked p.config) (levels_checked-le p.config) quoted
          passed_rules.bids_descend

    -- If a tick passes the price check and all the asks that are checked are quoted, they are sorted:
    -- the ask of a level is at least that of every level above it.
    pub check_price_validity-asks :
        AllQuoted tick.ask_price (levels_checked p.config)
        → (i j : ℕ) (x y : W) → i < j
        → j < levels_checked p.config
        → at tick.ask_price i ≡ some x
        → at tick.ask_price j ≡ some y
        → d.le x y ≡ true
    check_price_validity-asks quoted =
        Ordered-pairs (λ worse better. d.lt worse better) (λ a b. d.le b a ≡ true)
          (λ a b qa qb. le_of_quoted b a qb qa) (λ a b c h k. laws.le_trans c b a k h)
          tick.ask_price (levels_checked p.config) (levels_checked-le p.config) quoted
          passed_rules.asks_ascend
