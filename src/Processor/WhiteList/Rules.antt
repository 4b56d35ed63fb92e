-- ===== src/Processor/WhiteList/Rules.antt =====
-- `CheckWhiteList` against its rule.
use ultra_mds.Base.{
  ◌≡◌, ◌↔◌, refl, ◌⊎◌, inl, inr, true, false, some, List, [], ◌∷◌, arith, Bool-cases, not, ◌&&◌,
}
use ultra_mds.Base.Bytes.{Bytes, c_string, same_iff}
use ultra_mds.Tick.{TickData, short_text_size}
use ultra_mds.Config.{SpecialConfig}
use ultra_mds.Processor.{UnitProcessor, Message.not_in_whitelist}
use ultra_mds.Processor.Verdict.{PassesWhen, PassesWhen-passes, PassesWhen-fails}
use ultra_mds.Processor.WhiteList.{is_listed, is_empty, check_white_list}

abbrev pub Among : Bytes → List Bytes → Type 0
Among e [] = ⊥
Among e (x ∷ xs) = (x ≡ e) ⊎ Among e xs

is_listed_iff : (xs : List Bytes) (e : Bytes) → (is_listed xs e ≡ true) ↔ Among e xs
unfolding is_listed
is_listed_iff [] e = (λ h. cc, λ h. absurd h)
is_listed_iff (x ∷ xs) e = ground (arith, same_iff x e, is_listed_iff xs e)

-- The list is empty, or names the exchange.
abbrev pub IsListed : {W : Type 0} → SpecialConfig W → TickData W → Type 0
IsListed config tick =
    (config.exchange_whitelist ≡ [])
    ⊎ Among (c_string short_text_size tick.exchange_id) config.exchange_whitelist

verdict_iff :
    (xs : List Bytes) (e : Bytes)
    → ((not (is_empty xs) && not (is_listed xs e)) ≡ false) ↔ ((xs ≡ []) ⊎ Among e xs)
verdict_iff [] e = (λ _. inl refl, λ _. refl)
verdict_iff (x ∷ xs) e = ground (arith, is_listed_iff (x ∷ xs) e)

-- The check passes exactly the ticks of a listed exchange, or all of them if the list is empty, logs
-- exactly when it fails, and leaves the processor as it was.
pub check_white_list_iff :
    {W : Type 0} (tick : TickData W) (p : UnitProcessor W)
    → PassesWhen (some (check_white_list tick p)) p (IsListed p.config tick)
unfolding check_white_list
check_white_list_iff tick p =
    let xs = p.config.exchange_whitelist in
    let e = c_string short_text_size tick.exchange_id in
    let rule = verdict_iff xs e in
    elim (Bool-cases (not (is_empty xs) && not (is_listed xs e))) [
      | inl bad ↦ rw bad (PassesWhen-fails p not_in_whitelist [] (λ h. cc (bad, rule.1 h)))
      | inr good ↦ rw good (PassesWhen-passes p (rule.0 good))
    ]
