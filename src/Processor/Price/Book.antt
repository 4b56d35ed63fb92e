-- ===== src/Processor/Price/Book.antt =====
-- The loops over the levels of the order book against a description without loops.
use mathlib.Core.Option.{some-injective}
use native.Mathlib.Decide.{dec_lt}
use ultra_mds.Base.{
  sym, ◌∙◌, ℕ, zero, suc, ◌+◌, ◌-◌, ◌≤◌, ◌<◌, ◌≡◌, ◌↔◌, refl, inl, inr, Bool, true, false, ◌||◌,
  Option, some, if◌then◌else◌, arith, Bool-cases,
}
use ultra_mds.Double.{Double}
use ultra_mds.Tick.{Five, at, at_total}
use ultra_mds.Processor.Price.{is_invalid_price, is_unquoted, in_order}

module _ {W : Type 0} ⦃d : Double W⦄ (disordered : W → W → Bool) (side : Five W) where
  -- Quoted neighbours below index n are never out of order.
  abbrev pub Ordered : ℕ → Type 0
  Ordered n =
      (i : ℕ) (worse better : W)
      → suc i < n
      → at side (suc i) ≡ some worse
      → at side i ≡ some better
      → is_unquoted worse ≡ false
      → is_unquoted better ≡ false
      → disordered worse better ≡ false

  -- The same from index i on.
  abbrev OrderedFrom : ℕ → ℕ → Type 0
  OrderedFrom i n =
      (k : ℕ) (worse better : W)
      → i ≤ k
      → suc k < n
      → at side (suc k) ≡ some worse
      → at side k ≡ some better
      → is_unquoted worse ≡ false
      → is_unquoted better ≡ false
      → disordered worse better ≡ false

  -- What the loop returns decides the order of the levels that it has still to see.
  abbrev Decides : Option Bool → ℕ → ℕ → Type 0
  Decides r i n = (b : Bool) × (r ≡ some b) × ((b ≡ true) ↔ OrderedFrom i n)

  abbrev Fine : W → W → Type 0
  Fine worse better =
      is_unquoted worse ≡ false → is_unquoted better ≡ false → disordered worse better ≡ false

  OrderedFrom-cons :
      (i n : ℕ) (w b : W)
      → at side (suc i) ≡ some w
      → at side i ≡ some b
      → Fine w b
      → OrderedFrom (suc i) n
      → OrderedFrom i n
  OrderedFrom-cons i n w b ew eb fine rest k worse better lo hi e f = elim (dec_lt i k) [
    | yes later ↦ rest k worse better later hi e f
    | no here ↦
        let same : k ≡ i = omega arith in
        let worse_eq : worse ≡ w = some-injective _ _ (sym e ∙ rw same ew) in
        let better_eq : better ≡ b = some-injective _ _ (sym f ∙ rw same eb) in
        rw (worse_eq, better_eq) fine
  ]

  OrderedFrom-tail : (i n : ℕ) → OrderedFrom i n → OrderedFrom (suc i) n
  OrderedFrom-tail i n all k worse better lo = all k worse better (omega arith)

  -- One round of the loop, on what the later rounds decide.
  round-Decides :
      (i n : ℕ) (w b : W) (rest : Option Bool)
      → suc i < n
      → at side (suc i) ≡ some w
      → at side i ≡ some b
      → Decides rest (suc i) n
      → Decides
          (if is_invalid_price w || is_invalid_price b
            then rest
            else if d.eq w d.nought || d.eq b d.nought
            then rest
            else if disordered w b
            then some false
            else rest)
          i
          n
  round-Decides i n w b rest h ew eb (r, e, decides) =
      elim (Bool-cases (is_unquoted w || is_unquoted b)) [
        | inl skip ↦
            let fine : Fine w b = λ p q. ground arith in
            (
              r,
              ground arith,
              (
                λ t. OrderedFrom-cons i n w b ew eb fine (decides.0 t),
                λ all. decides.1 (OrderedFrom-tail i n all),
              ),
            )
        | inr quoted ↦ elim (Bool-cases (disordered w b)) [
          | inl bad ↦ (
            false,
            ground arith,
            (
              λ t. cc,
              λ all. cc (bad, all i w b (omega arith) h ew eb (ground arith) (ground arith)),
            ),
          )
          | inr good ↦
              let fine : Fine w b = λ p q. good in
              (
                r,
                ground arith,
                (
                  λ t. OrderedFrom-cons i n w b ew eb fine (decides.0 t),
                  λ all. decides.1 (OrderedFrom-tail i n all),
                ),
              )
        ]
      ]

  in_order-Decides :
      (left i n : ℕ)
      → suc i + left ≡ n
      → n ≤ 5
      → Decides (in_order disordered side left (suc i)) i n
  unfolding in_order
  in_order-Decides zero i n e h =
      (true, refl, (λ _ k worse better lo hi. absurd (omega arith), λ _. refl))
  in_order-Decides (suc left) i n e h =
      let (w, ew) = at_total side (suc i) (omega arith) in
      let (b, eb) = at_total side i (omega arith) in
      let down : suc i - 1 ≡ i = omega arith in
      let up : suc i + 1 ≡ suc (suc i) = omega arith in
      rw (down, up, ew, eb)
        (round-Decides i n w b _ (omega arith) ew eb
          (in_order-Decides left (suc i) n (omega arith) h))

  -- On the first levels, five at most, the loop returns whether they are ordered.
  pub in_order_decides :
      (count : ℕ)
      → count ≤ 5
      → (b : Bool) × (in_order disordered side (count - 1) 1 ≡ some b)
        × ((b ≡ true) ↔ Ordered count)
  in_order_decides zero h =
      let (b, e, decides) = in_order-Decides 0 0 1 refl (omega arith) in
      (
        b,
        e,
        (
          λ _ i worse better lt. absurd (omega arith),
          λ _. decides.1 (λ i worse better lo hi. absurd (omega arith)),
        ),
      )
  in_order_decides (suc count) h =
      let same : suc count - 1 ≡ count = omega arith in
      let (b, e, decides) = in_order-Decides count 0 (suc count) (omega arith) h in
      let all_of = λ (t : b ≡ true) (i : ℕ) (worse better : W) (lt : suc i < suc count).
        decides.0 t i worse better (omega arith) lt in
      rw same (b, e, (all_of, λ all. decides.1 (λ i worse better lo. all i worse better)))
