-- ===== src/Dispatcher/Confined.antt =====
-- The dispatcher's thread and the handlers' threads, in any order of their steps: each processor's
-- ticks are read by one handler only, so that no two threads use one processor.
use mathlib.Core.Path.{subst}
use native.Mathlib.Nat.{mod-lt}
use ultra_mds.Base.{
  ℕ, zero, suc, ◌%◌, ◌<◌, ◌≡◌, ◌⊎◌, inl, inr, refl, sym, ap, ◌∙◌, false, Option, none, some, List,
  [], ◌∷◌, ltb, length, length-set, get_elem?, set, All, All-append, arith, Bool-cases,
  Option-cases, List-cases,
}
use ultra_mds.Base.Int.{ℤ}
use ultra_mds.Base.Bytes.{Bytes, c_string}
use ultra_mds.Ctp.{DepthMarketData}
use ultra_mds.Tick.{TickData, make_tick, instrument_id_size}
use ultra_mds.Queue.{SpscQueue, IsSpscQueue}
use ultra_mds.Dispatcher.{Dispatcher, DispatchMessage, dispatch}
use ultra_mds.Dispatcher.Mapping.{first_index}
use ultra_mds.Dispatcher.Route.{IsReady, get_elem?_total, dispatch-unlisted, dispatch-listed}

-- A step of the queues: the market's thread dispatches a record, or the handler of the k-th queue
-- pops the tick that it has handled.
pub data Step (W : Type 0) {Q : Type 0} ⦃qs : SpscQueue (TickData W) Q⦄ (d : Dispatcher)
    : List Q → List Q → Type 0 where
  fed :
      {queues queues' : List Q} (data' : DepthMarketData W) (now : ℤ)
      (messages : List DispatchMessage)
      → dispatch data' now d queues ≡ some (queues', messages)
      → Step W d queues queues'
  handled :
      {queues : List Q} (k : ℕ) (q : Q) (t : TickData W)
      → get_elem? queues k ≡ some q
      → qs.front q ≡ some t
      → Step W d queues (set queues k (qs.pop q))

pub data Run (W : Type 0) {Q : Type 0} ⦃qs : SpscQueue (TickData W) Q⦄ (d : Dispatcher)
    (start : List Q) : List Q → Type 0 where
  started : Run W d start start
  then_ :
      {queues queues' : List Q}
      → Run W d start queues
      → Step W d queues queues'
      → Run W d start queues'

abbrev after : {A B : Type 0} → A → Option (A × B) → A
after default none = default
after default (some (a, b)) = a

-- The tick belongs to a processor whose index is k modulo n.
abbrev pub BelongsTo : {W : Type 0} → ℕ → ℕ → TickData W → Type 0
BelongsTo n k t = (i : ℕ) × (t.detector ≡ some i) × (i % n ≡ k)

-- What a written vector holds.
get_elem?-set_cases :
    {A : Type 0} (xs : List A) (k : ℕ) (v : A) (j : ℕ) (x : A)
    → get_elem? (set xs k v) j ≡ some x
    → ((j ≡ k) × (x ≡ v)) ⊎ (get_elem? xs j ≡ some x)
get_elem?-set_cases [] k v j x h = inr h
get_elem?-set_cases (y ∷ xs) zero v zero x h = inl (refl, cc)
get_elem?-set_cases (y ∷ xs) zero v (suc j) x h = inr h
get_elem?-set_cases (y ∷ xs) (suc k) v zero x h = inr h
get_elem?-set_cases (y ∷ xs) (suc k) v (suc j) x h = elim (get_elem?-set_cases xs k v j x h) [
  | inl (e, f) ↦ inl (ap suc e, f)
  | inr e ↦ inr e
]

module _ {W Q : Type 0} ⦃qs : SpscQueue (TickData W) Q⦄ (laws : IsSpscQueue (TickData W) Q)
    (n : ℕ) where
  -- There are n queues, and each tick in the k-th belongs there.
  abbrev pub IsConfined : List Q → Type 0
  IsConfined queues =
      (length queues ≡ n)
      × ((k : ℕ) (q : Q) → get_elem? queues k ≡ some q → All (BelongsTo n k) (laws.contents q))

  abbrev replaced :
      (queues : List Q) (k : ℕ) (q : Q)
      → All (BelongsTo n k) (laws.contents q)
      → IsConfined queues
      → IsConfined (set queues k q)
  replaced queues k q all (size, own) = (
    length-set queues k q ∙ size,
    λ j x h. elim (get_elem?-set_cases queues k q j x h) [
      | inl (e, f) ↦ rw (e, f) all
      | inr e ↦ own j x e
    ],
  )

  All-offered :
      (i : ℕ) (t : TickData W) (q : Q)
      → t.detector ≡ some i
      → All (BelongsTo n (i % n)) (laws.contents q)
      → All (BelongsTo n (i % n)) (laws.contents (qs.try_emplace t q).1)
  All-offered i t q e all = elim (Bool-cases (qs.try_emplace t q).0) [
    | inl taken ↦
        rw (laws.contents-try_emplace t q taken)
          (All-append (BelongsTo n (i % n)) (laws.contents q) (t ∷ []) all ((i, e, refl), tt))
    | inr full ↦ rw (laws.contents_when_full t q full) all
  ]

  All-popped :
      (k : ℕ) (q : Q) (t : TickData W)
      → qs.front q ≡ some t
      → All (BelongsTo n k) (laws.contents q)
      → All (BelongsTo n k) (laws.contents (qs.pop q))
  All-popped k q t e all = elim (List-cases (laws.contents q)) [
    | inl h ↦ absurd (cc (e, laws.front_of_empty q h))
    | inr (a, rest, h) ↦ rw (laws.contents-pop q a rest h) (subst (All (BelongsTo n k)) h all).1
  ]

  module _ {names : List Bytes} {d : Dispatcher} (ready : IsReady names n d) (h0 : 0 < n) where
    IsConfined-listed :
        (data' : DepthMarketData W) (now : ℤ) (queues queues' : List Q)
        (messages : List DispatchMessage) (i : ℕ)
        → length (c_string instrument_id_size data'.instrument_id) < instrument_id_size
        → first_index (c_string instrument_id_size data'.instrument_id) names ≡ some i
        → dispatch data' now d queues ≡ some (queues', messages)
        → IsConfined queues
        → IsConfined queues'
    IsConfined-listed data' now queues queues' messages i fits h e (size, own) =
        let (q, held) = get_elem?_total queues (i % n) (rw size (mod-lt i h0)) in
        let t = make_tick data' (some i) now in
        let all = All-offered i t q (unfold make_tick in refl) (own (i % n) q held) in
        let run = dispatch-listed ready data' now queues fits i q h held h0 in
        let same : set queues (i % n) (qs.try_emplace t q).1 ≡ queues' =
          ap (after queues) (sym run ∙ e) in
        subst IsConfined same (replaced queues (i % n) (qs.try_emplace t q).1 all (size, own))

    long_key :
        (data' : DepthMarketData W) (now : ℤ) (queues : List Q)
        → ltb (length (c_string instrument_id_size data'.instrument_id)) instrument_id_size ≡ false
        → {r : List Q × List DispatchMessage} → ¬ (dispatch data' now d queues ≡ some r)
    unfolding dispatch
    long_key data' now queues long e = ground arith

    Step-IsConfined :
        {queues queues' : List Q} → Step W d queues queues' → IsConfined queues → IsConfined queues'
    Step-IsConfined (fed {queues = queues} {queues' = queues'} data' now messages e) h =
        elim (Bool-cases
          (ltb (length (c_string instrument_id_size data'.instrument_id)) instrument_id_size)) [
            | inr long ↦ absurd (long_key data' now queues long e)
            | inl short ↦
                let fits : length (c_string instrument_id_size data'.instrument_id)
                    < instrument_id_size =
                  ground arith in
                elim (Option-cases
                  (first_index (c_string instrument_id_size data'.instrument_id) names)) [
                    | inl f ↦
                        let run = dispatch-unlisted ready data' now queues fits f in
                        let same : queues ≡ queues' = ap (after queues) (sym run ∙ e) in
                        subst IsConfined same h
                    | inr (i, f) ↦ IsConfined-listed data' now queues queues' messages i fits f e h
                  ]
          ]
    Step-IsConfined (handled {queues = queues} k q t e f) (size, own) =
        replaced queues k (qs.pop q) (All-popped k q t f (own k q e)) (size, own)

    -- Whatever the order of the steps, the k-th queue holds only ticks of processors whose index is k
    -- modulo n, if it did so at the start, and there are n queues still.
    pub Run-IsConfined :
        {start queues : List Q} → IsConfined start → Run W d start queues → IsConfined queues
    Run-IsConfined h started = h
    Run-IsConfined h (then_ run step) = Step-IsConfined step (Run-IsConfined h run)
