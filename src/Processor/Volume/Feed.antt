-- ===== src/Processor/Volume/Feed.antt =====
-- The volume check on the ticks that the program builds from the exchange's records.
use ultra_mds.Base.{ℕ, zero, suc, ◌≡◌, sym, refl, Option, some, false}
use mathlib.Core.Option.{some-injective}
use ultra_mds.Base.Int.{ℤ, pos, ltb_ℤ}
use ultra_mds.Ctp.{DepthMarketData}
use ultra_mds.Tick.{at, make_tick, no_volumes}
use ultra_mds.Processor.{UnitProcessor}
use ultra_mds.Processor.Verdict.{PassesWhen, PassesWhen-iff}
use ultra_mds.Processor.Volume.{check_volume_validity}
use ultra_mds.Processor.Volume.Rules.{NonNegative, check_volume_validity_iff, volume_levels}

at-no_volumes : (i : ℕ) {x : ℤ} → at no_volumes i ≡ some x → x ≡ pos 0
at-no_volumes zero e = sym (some-injective _ _ e)
at-no_volumes (suc zero) e = sym (some-injective _ _ e)
at-no_volumes (suc (suc zero)) e = sym (some-injective _ _ e)
at-no_volumes (suc (suc (suc zero))) e = sym (some-injective _ _ e)
at-no_volumes (suc (suc (suc (suc zero)))) e = sym (some-injective _ _ e)
at-no_volumes (suc (suc (suc (suc (suc i))))) e = cc

no_volumes-NonNegative : (i n : ℕ) → NonNegative no_volumes no_volumes i n
no_volumes-NonNegative i n k lo hi b a eb ea =
    rw (at-no_volumes k eb, at-no_volumes k ea) (refl, refl)

-- On a tick that the program has built the check depends on the total volume alone: whatever volumes
-- the exchange reports for the levels of the book, none of them is looked at.
pub check_volume_validity-make_tick :
    {W : Type 0} (data' : DepthMarketData W) (detector : Option ℕ) (now : ℤ) (p : UnitProcessor W)
    → PassesWhen
        (check_volume_validity (make_tick data' detector now) p)
        p
        (ltb_ℤ data'.volume (pos 0) ≡ false)
unfolding make_tick
check_volume_validity-make_tick data' detector now p =
    PassesWhen-iff (check_volume_validity (make_tick data' detector now) p) p
      (
        λ v. v.volume_valid,
        λ h. record {
          volume_valid = h;
          levels_valid = no_volumes-NonNegative 0 (volume_levels p.config);
        },
      )
      (check_volume_validity_iff (make_tick data' detector now) p)
