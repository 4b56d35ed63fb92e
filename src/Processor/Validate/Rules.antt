-- ===== src/Processor/Validate/Rules.antt =====
-- `validate` accepts exactly the ticks that keep every rule that is switched on.
use mathlib.Core.Path.{subst}
use ultra_mds.Base.{sym, ◌≡◌, refl, ◌⊎◌, inl, inr, true, false, some, [], ◌∷◌, arith, Bool-cases}
use ultra_mds.Base.Int.{pos, negsuc}
use ultra_mds.Double.{Double}
use ultra_mds.Tick.{TickData}
use ultra_mds.Config.{SpecialConfig}
use ultra_mds.Processor.{UnitProcessor, Check, Message, Message.empty_packet}
use ultra_mds.Processor.Verdict.{PassesWhen, PassesWhen-passes, PassesWhen-fails}
use ultra_mds.Processor.WhiteList.{check_white_list}
use ultra_mds.Processor.WhiteList.Rules.{IsListed, check_white_list_iff}
use ultra_mds.Processor.Timestamp.{combine_timestamp, check_timestamp_new}
use ultra_mds.Processor.Timestamp.Packed.{
  Moment, IsMoment, Shows, packed, combine_timestamp_cases, combine_timestamp-Shows,
}
use ultra_mds.Processor.Timestamp.Tolerance.{
  InTolerance, advanced, check_timestamp_new-Shows, check_timestamp_new_logs,
}
use ultra_mds.Processor.Price.{check_price_validity}
use ultra_mds.Processor.Price.Rules.{IsPriceValid, check_price_validity_iff}
use ultra_mds.Processor.Volume.{is_all_zero, check_volume_validity, check_abnormal_packet}
use ultra_mds.Processor.Volume.Rules.{IsVolumeValid, check_volume_validity_iff}
use ultra_mds.Processor.Validate.{gate, and_then, validate}
use ultra_mds.Processor.Validate.Ends.{
  Ends, EndsBy-cases, Ends-gate, Ends-and_then, Ends-mono, Ends-PassesWhen, PassesWhen-gate,
  PassesWhen-and_then,
}

module _ {W : Type 0} ⦃d : Double W⦄ (tick : TickData W) (p : UnitProcessor W) where
  -- The tick shows a moment that is in tolerance.
  abbrev pub IsTimely : Type 0
  IsTimely = (c : Moment) × IsMoment c × Shows p.config tick c × InTolerance p (pos (packed c))

  -- The rules that are switched on.
  pub record IsAccepted : Type 0 where
    pub listed : p.config.enable_exchange_check ≡ true → IsListed p.config tick
    pub timely : p.config.enable_timestamp_check ≡ true → IsTimely
    pub price_valid : p.config.enable_price_check ≡ true → IsPriceValid p.config tick
    pub volume_valid : p.config.enable_volume_check ≡ true → IsVolumeValid p.config tick
    pub not_empty : p.config.enable_abnormal_packet_check ≡ true → is_all_zero tick ≡ false

  -- The processor after the timestamp check: as it was, or, if the check is on and the tick shows a
  -- moment, with the later of the two timestamps.
  abbrev pub IsAdvanced : UnitProcessor W → Type 0
  IsAdvanced q =
      (q ≡ p)
      ⊎ ((p.config.enable_timestamp_check ≡ true)
          × ((c : Moment) × IsMoment c × Shows p.config tick c × (q ≡ advanced p (pos (packed c)))))

module _ {W : Type 0} ⦃d : Double W⦄ (tick : TickData W) (p : UnitProcessor W) where
  check_abnormal_packet_iff :
      PassesWhen (some (check_abnormal_packet tick p)) p (is_all_zero tick ≡ false)
  unfolding check_abnormal_packet
  check_abnormal_packet_iff = elim (Bool-cases (is_all_zero tick)) [
    | inl e ↦ rw e (PassesWhen-fails p empty_packet [] (λ h. cc))
    | inr e ↦ rw e (PassesWhen-passes p refl)
  ]

  -- The readings of one tick agree.
  pub packed_unique :
      (c e : Moment)
      → IsMoment c
      → IsMoment e
      → Shows p.config tick c
      → Shows p.config tick e
      → packed c ≡ packed e
  packed_unique c e v w s r = ground (
    arith,
    combine_timestamp-Shows p.config tick c v s,
    combine_timestamp-Shows p.config tick e w r,
  )

  refused_fails :
      (m : Message)
      → combine_timestamp p.config tick ≡ (negsuc 0, m ∷ [])
      → (check_timestamp_new tick p).passed ≡ false
  unfolding check_timestamp_new
  refused_fails m e = rw e

  abbrev pub Stamped : UnitProcessor W → Type 0
  Stamped q =
      (c : Moment) × IsMoment c
      × Shows p.config tick c
      × InTolerance p (pos (packed c))
      × (q ≡ advanced p (pos (packed c)))

  abbrev Unstamped : UnitProcessor W → Type 0
  Unstamped q = (q ≡ p) × ¬ IsTimely tick p

  -- The timestamp check as a step of `validate`.
  timestamp-Ends : Ends (some (check_timestamp_new tick p)) Stamped Unstamped
  timestamp-Ends =
      let o = check_timestamp_new tick p in
      let (silent, _, kept) = check_timestamp_new_logs tick p in
      let noisy : o.passed ≡ false → o.messages ≡ [] → ⊥ = λ f e. cc (f, silent.1 e) in
      let same : o.passed ≡ false → o.processor ≡ p =
        λ f. elim kept [ inl t ↦ absurd (cc (f, t)) | inr e ↦ e ] in
      EndsBy-cases Stamped Unstamped o
        (λ t. (
          silent.0 t,
          elim (combine_timestamp_cases p.config tick) [
            | inl (m, e) ↦ absurd (cc (t, refused_fails m e))
            | inr (c, v, s, e) ↦
                let (iff, moved) = check_timestamp_new-Shows tick p c v s in
                (c, v, s, iff.0 t, moved)
          ],
        ))
        (λ f. (
          noisy f,
          (same f, λ (c, v, s, h). cc (f, (check_timestamp_new-Shows tick p c v s).0.1 h)),
        ))

  abbrev pub AfterTimestamp : UnitProcessor W → Type 0
  AfterTimestamp q =
      ((p.config.enable_timestamp_check ≡ false) × (q ≡ p))
      ⊎ ((p.config.enable_timestamp_check ≡ true) × Stamped q)

  -- The checks behind the timestamp check, on the processor q that it left.
  abbrev pub Rest : UnitProcessor W → Type 0
  Rest q =
      (p.config.enable_price_check ≡ true → IsPriceValid q.config tick)
      × ((p.config.enable_volume_check ≡ true → IsVolumeValid q.config tick)
          × (p.config.enable_abnormal_packet_check ≡ true → is_all_zero tick ≡ false))

  abbrev pub rest : Check W
  rest = and_then (gate p.config.enable_price_check (check_price_validity tick)) (
      and_then (gate p.config.enable_volume_check (check_volume_validity tick))
        (gate p.config.enable_abnormal_packet_check (λ q. some (check_abnormal_packet tick q))))

module _ {W : Type 0} ⦃d : Double W⦄ (tick : TickData W) (p : UnitProcessor W) where
  pub rest-PassesWhen : (q : UnitProcessor W) → PassesWhen (rest tick p q) q (Rest tick p q)
  rest-PassesWhen q =
      PassesWhen-and_then _ _ (gate config.enable_price_check price q) after_price q
        (PassesWhen-gate _ config.enable_price_check price q (check_price_validity_iff tick q))
        (PassesWhen-and_then _ _ (gate config.enable_volume_check volume q) after_volume q
          (PassesWhen-gate _ config.enable_volume_check volume q (check_volume_validity_iff tick q))
          (PassesWhen-gate _ config.enable_abnormal_packet_check packet q
            (check_abnormal_packet_iff tick q)))
    where
      config : SpecialConfig W
      config = p.config

      price : Check W
      price = check_price_validity tick

      volume : Check W
      volume = check_volume_validity tick

      packet : Check W
      packet = λ r. some (check_abnormal_packet tick r)

      after_volume : Check W
      after_volume = gate config.enable_abnormal_packet_check packet

      after_price : Check W
      after_price = and_then (gate config.enable_volume_check volume) after_volume

  pub AfterTimestamp-config : (q : UnitProcessor W) → AfterTimestamp tick p q → q.config ≡ p.config
  AfterTimestamp-config q (inl (_, e)) = rw e
  AfterTimestamp-config q (inr (_, (c, v, s, h, e))) = rw e

  pub IsAdvanced-config : (q : UnitProcessor W) → IsAdvanced tick p q → q.config ≡ p.config
  IsAdvanced-config q (inl e) = rw e
  IsAdvanced-config q (inr (_, (c, v, s, e))) = rw e

  pub AfterTimestamp-IsAdvanced :
      (q : UnitProcessor W) → AfterTimestamp tick p q → IsAdvanced tick p q
  AfterTimestamp-IsAdvanced q (inl (_, e)) = inl e
  AfterTimestamp-IsAdvanced q (inr (on, (c, v, s, h, e))) = inr (on, (c, v, s, e))

  AfterTimestamp-timely :
      (q : UnitProcessor W)
      → AfterTimestamp tick p q
      → p.config.enable_timestamp_check ≡ true
      → IsTimely tick p
  AfterTimestamp-timely q (inl (off, _)) on = absurd (cc (off, on))
  AfterTimestamp-timely q (inr (_, (c, v, s, h, e))) on = (c, v, s, h)

  abbrev pub Success : UnitProcessor W → Type 0
  Success q = IsAccepted tick p × AfterTimestamp tick p q

  abbrev pub Failure : UnitProcessor W → Type 0
  Failure q = ¬ IsAccepted tick p × IsAdvanced tick p q

  abbrev pub ListedRule : Type 0
  ListedRule = p.config.enable_exchange_check ≡ true → IsListed p.config tick

  rest-Ends :
      ListedRule
      → (q : UnitProcessor W) → AfterTimestamp tick p q
      → Ends (rest tick p q) Success Failure
  rest-Ends listed q after =
      let same = AfterTimestamp-config q after in
      Ends-PassesWhen Success Failure (rest tick p q) q (rest-PassesWhen q)
        (λ (price, (volume, packet)). (
          record {
            listed = listed;
            timely = AfterTimestamp-timely q after;
            price_valid = λ on. subst (λ c. IsPriceValid c tick) same (price on);
            volume_valid = λ on. subst (λ c. IsVolumeValid c tick) same (volume on);
            not_empty = packet;
          },
          after,
        ))
        (λ no. (
          λ ok. no (
            λ on. subst (λ c. IsPriceValid c tick) (sym same) (ok.price_valid on),
            (λ on. subst (λ c. IsVolumeValid c tick) (sym same) (ok.volume_valid on), ok.not_empty),
          ),
          AfterTimestamp-IsAdvanced q after,
        ))

  abbrev pub stamp : Check W
  stamp q = some (check_timestamp_new tick q)

  abbrev Late : UnitProcessor W → Type 0
  Late q = (q ≡ p) × (p.config.enable_timestamp_check ≡ true) × ¬ IsTimely tick p

  timestamp-step : Ends (gate p.config.enable_timestamp_check stamp p) (AfterTimestamp tick p) Late
  timestamp-step =
      Ends-gate (AfterTimestamp tick p) Late p.config.enable_timestamp_check stamp p
        (λ on.
          Ends-mono (AfterTimestamp tick p) Late (Stamped tick p) (Unstamped tick p) (stamp p)
            (timestamp-Ends tick p) (λ q s. inr (on, s)) (λ q (e, late). (e, on, late)))
        (λ off. inl (off, refl))

  stamped-Ends :
      ListedRule
      → Ends (and_then (gate p.config.enable_timestamp_check stamp) (rest tick p) p) Success Failure
  stamped-Ends listed =
      Ends-and_then Success Failure (AfterTimestamp tick p) Late
        (gate p.config.enable_timestamp_check stamp p) (rest tick p) timestamp-step
        (rest-Ends listed) (λ q (e, on, late). (λ ok. late (ok.timely on), inl e))

  -- For every tick and state the call ends without reading outside an array. It passes, with no log
  -- line, exactly if every rule that is switched on holds, and otherwise fails with a log line; the
  -- only change of the state is that of the timestamp check.
  pub validate-Ends : Ends (validate tick p) Success Failure
  unfolding validate
  validate-Ends =
      let check : Check W = λ q. some (check_white_list tick q) in
      let Here : UnitProcessor W → Type 0 = λ q. (q ≡ p) × ListedRule in
      let Barred : UnitProcessor W → Type 0 = λ q. (q ≡ p) × ¬ ListedRule in
      Ends-and_then Success Failure Here Barred (gate p.config.enable_exchange_check check p)
        (and_then (gate p.config.enable_timestamp_check stamp) (rest tick p))
        (Ends-PassesWhen Here Barred (gate p.config.enable_exchange_check check p) p
          (PassesWhen-gate _ p.config.enable_exchange_check check p (check_white_list_iff tick p))
          (λ listed. (refl, listed)) (λ barred. (refl, barred)))
        (λ q (e, listed). rw e (stamped-Ends listed))
        (λ q (e, barred). (λ ok. barred ok.listed, inl e))
