-- ===== src/Processor/Volume/Rules.antt =====
-- `checkVolumeValidity` and `checkAbnormalPacket` against their rules.
use mathlib.Core.Option.{some-injective}
use native.Mathlib.Decide.{dec_lt}
use native.Mathlib.Nat.{le_refl}
use ultra_mds.Base.{
  ℕ, zero, suc, ◌+◌, ◌≤◌, ◌<◌, ◌≡◌, refl, sym, ◌∙◌, inl, inr, false, Option, none, some, List, [],
  ◌∷◌, ◌>>=◌, arith, Bool-cases,
}
use ultra_mds.Base.Int.{ℤ, pos, pos_part, ltb_ℤ, min_ℤ}
use ultra_mds.Tick.{TickData, Five, at, at_total}
use ultra_mds.Config.{SpecialConfig}
use ultra_mds.Processor.{UnitProcessor, Message, passes, fails, Message.negative_volume}
use ultra_mds.Processor.Verdict.{PassesWhen, PassesWhen-passes, PassesWhen-fails}
use ultra_mds.Processor.Volume.{negative_level, check_volume_validity}

module _ (bid ask : Five ℤ) where
  abbrev NonNegativeAt : ℕ → Type 0
  NonNegativeAt i =
      (b a : ℤ)
      → at bid i ≡ some b
      → at ask i ≡ some a
      → (ltb_ℤ b (pos 0) ≡ false) × (ltb_ℤ a (pos 0) ≡ false)

  -- No level from i on, below n, has a negative volume.
  abbrev pub NonNegative : ℕ → ℕ → Type 0
  NonNegative i n = (k : ℕ) → i ≤ k → k < n → NonNegativeAt k

  -- The loop ends, and finds nothing exactly when no level is negative.
  abbrev Finds : Option (List Message) → ℕ → ℕ → Type 0
  Finds none i n = ⊥
  Finds (some []) i n = NonNegative i n
  Finds (some (m ∷ ms)) i n = ¬ NonNegative i n

  NonNegative-cons :
      (i n : ℕ) (b a : ℤ)
      → at bid i ≡ some b
      → at ask i ≡ some a
      → ltb_ℤ b (pos 0) ≡ false
      → ltb_ℤ a (pos 0) ≡ false
      → NonNegative (suc i) n
      → NonNegative i n
  NonNegative-cons i n b a eb ea hb ha rest k lo hi x y ex ey = elim (dec_lt i k) [
    | yes later ↦ rest k later hi x y ex ey
    | no here ↦
        let same : k ≡ i = omega arith in
        let x_eq : x ≡ b = some-injective _ _ (sym ex ∙ rw same eb) in
        let y_eq : y ≡ a = some-injective _ _ (sym ey ∙ rw same ea) in rw (x_eq, y_eq) (hb, ha)
  ]

  Finds-tail :
      (i n : ℕ) (b a : ℤ) (r : Option (List Message))
      → at bid i ≡ some b
      → at ask i ≡ some a
      → ltb_ℤ b (pos 0) ≡ false
      → ltb_ℤ a (pos 0) ≡ false
      → Finds r (suc i) n
      → Finds r i n
  Finds-tail i n b a none eb ea hb ha f = f
  Finds-tail i n b a (some []) eb ea hb ha f = NonNegative-cons i n b a eb ea hb ha f
  Finds-tail i n b a (some (m ∷ ms)) eb ea hb ha f = λ all. f (λ k lo. all k (omega arith))

  negative_level-Finds :
      (left i n : ℕ) → i + left ≡ n → n ≤ 5 → Finds (negative_level bid ask left i) i n
  unfolding negative_level
  negative_level-Finds zero i n e h = λ k lo hi. absurd (omega arith)
  negative_level-Finds (suc left) i n e h =
      let (b, eb) = at_total bid i (omega arith) in
      let (a, ea) = at_total ask i (omega arith) in
      let up : i + 1 ≡ suc i = omega arith in
      let rest = negative_level-Finds left (suc i) n (omega arith) h in
      rw (eb, ea, up)
        (elim (Bool-cases (ltb_ℤ b (pos 0))) [
          | inl bad ↦ rw bad (λ all. cc (bad, (all i (le_refl i) (omega arith) b a eb ea).0))
          | inr good ↦ elim (Bool-cases (ltb_ℤ a (pos 0))) [
            | inl bad ↦
                rw (good, bad) (λ all. cc (bad, (all i (le_refl i) (omega arith) b a eb ea).1))
            | inr fine ↦ rw (good, fine) (Finds-tail i n b a _ eb ea good fine rest)
          ]
        ])

module _ {W : Type 0} where
  abbrev pub volume_levels : SpecialConfig W → ℕ
  volume_levels config = pos_part (min_ℤ config.check_bid_ask_levels (pos 5))

  -- The rules for the volumes of a tick.
  pub record IsVolumeValid (config : SpecialConfig W) (tick : TickData W) : Type 0 where
    pub volume_valid : ltb_ℤ tick.volume (pos 0) ≡ false
    pub levels_valid : NonNegative tick.bid_volume tick.ask_volume 0 (volume_levels config)

module _ {W : Type 0} (tick : TickData W) (p : UnitProcessor W) where
  levels_verdict :
      (r : Option (List Message)) (n : ℕ)
      → ltb_ℤ tick.volume (pos 0) ≡ false
      → n ≡ volume_levels p.config
      → Finds tick.bid_volume tick.ask_volume r 0 n
      → PassesWhen
          (r >>= λ found. some (elim found [ [] ↦ passes p [] | m ∷ ms ↦ fails p (m ∷ ms) ]))
          p
          (IsVolumeValid p.config tick)
  levels_verdict none n v e f = f
  levels_verdict (some []) n v e f =
      PassesWhen-passes p (record { volume_valid = v; levels_valid = rw (← e) f })
  levels_verdict (some (m ∷ ms)) n v e f =
      PassesWhen-fails p m ms (λ valid. f (rw e valid.levels_valid))

  -- For every tick and configuration the check reads inside the arrays only, leaves the processor as
  -- it was, passes exactly the ticks that keep the rules, and logs exactly when it fails.
  pub check_volume_validity_iff :
      PassesWhen (check_volume_validity tick p) p (IsVolumeValid p.config tick)
  unfolding check_volume_validity
  check_volume_validity_iff = elim (Bool-cases (ltb_ℤ tick.volume (pos 0))) [
    | inl e ↦ rw e (PassesWhen-fails p negative_volume [] (λ v. cc (e, v.volume_valid)))
    | inr e ↦
        let n = volume_levels p.config in
        rw e (
          levels_verdict (negative_level tick.bid_volume tick.ask_volume n 0) n e refl (
            negative_level-Finds tick.bid_volume tick.ask_volume n 0 n (omega arith)
              (ground arith)))
  ]
