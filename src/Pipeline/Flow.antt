-- ===== src/Pipeline/Flow.antt =====
-- What holds of the running system, whatever the order of its threads' steps.
use mathlib.Core.Path.{subst}
use mathlib.Core.Option.{some-injective}
use ultra_mds.Base.{
  ℕ, ◌%◌, ◌<◌, ◌≡◌, inl, inr, refl, sym, ap, ◌∙◌, Bool, Option, some, List, [], ◌∷◌, ◌++◌,
  if◌then◌else◌, length, get_elem?, set, All, Bool-cases, List-cases, arith,
}
use ultra_mds.Base.Int.{ℤ}
use ultra_mds.Base.Bytes.{Bytes}
use ultra_mds.Double.{Double}
use ultra_mds.Tick.{TickData, TickDataMes}
use ultra_mds.Config.{Endpoint}
use ultra_mds.Queue.{SpscQueue, IsSpscQueue}
use ultra_mds.Processor.{UnitProcessor}
use ultra_mds.Processor.Validate.Replay.{validate-total}
use ultra_mds.Dispatcher.{Dispatcher}
use ultra_mds.Dispatcher.Route.{IsReady, get_elem?_total}
use ultra_mds.Handler.{SendEvent, process_turn}
use ultra_mds.Handler.Round.{published, process_turn-runs}
use ultra_mds.Pipeline.{World, Move, fed, handled, Reach, here, next, entering}
use ultra_mds.Pipeline.Select.{ticks_of, append_nil}
use ultra_mds.Pipeline.Offer.{dispatch_cases}
use ultra_mds.Pipeline.Order.{Owned, InOrder, InOrder-entered, InOrder-taken, InOrder-refused}
use ultra_mds.Pipeline.Sent.{Replays, Replays-start, Replays-turn}

module _ {W Q : Type 0} ⦃double : Double W⦄ ⦃qs : SpscQueue (TickData W) Q⦄
    (laws : IsSpscQueue (TickData W) Q) where
  -- The state that the start leaves: n empty queues, and nothing done yet.
  pub record IsFresh (n : ℕ) (w : World W Q) : Type 0 where
    pub size : length w.queues ≡ n
    pub empty : (k : ℕ) (q : Q) → get_elem? w.queues k ≡ some q → laws.contents q ≡ []
    pub none_entered : w.entered ≡ []
    pub none_taken : w.turns ≡ []

  abbrev InOrderWorld : ℕ → ℕ → World W Q → Type 0
  InOrderWorld m n w = InOrder laws m n w.queues w.entered w.turns

  IsFresh-InOrder : (m n : ℕ) (w : World W Q) → IsFresh n w → InOrderWorld m n w
  unfolding ticks_of
  IsFresh-InOrder m n w f = record {
    size = f.size;
    owned = λ k q h. rw (f.empty k q h) tt;
    order = λ i q h. rw (f.none_entered, f.none_taken, f.empty (i % n) q h) refl;
  }

module _ {W Q : Type 0} ⦃double : Double W⦄ ⦃qs : SpscQueue (TickData W) Q⦄
    (laws : IsSpscQueue (TickData W) Q) (serialize : TickDataMes W → Option Bytes)
    (send_to : ℤ → Endpoint → Bytes → Bool) {names : List Bytes} {n : ℕ} {d : Dispatcher}
    (ready : IsReady names n d) (h0 : 0 < n) where
  -- The invariant: the order of the ticks, and what was sent for them.
  abbrev pub IsFlow : List (UnitProcessor W) → World W Q → Type 0
  IsFlow start w =
      InOrder laws (length names) n w.queues w.entered w.turns
      × Replays serialize send_to start w.processors w.turns

  front_of :
      (q : Q) (t : TickData W)
      → qs.front q ≡ some t
      → (rest : List (TickData W)) × (laws.contents q ≡ t ∷ rest)
  front_of q t e = elim (List-cases (laws.contents q)) [
    | inl h ↦ absurd (cc (e, laws.front_of_empty q h))
    | inr (a, rest, h) ↦
        let same : a ≡ t = some-injective _ _ (sym (laws.front_lem q a rest h) ∙ e) in
        (rest, h ∙ ap (λ b. b ∷ rest) same)
  ]

  fed-IsFlow :
      (start : List (UnitProcessor W)) (w : World W Q) (queues' : List Q) (more : List (TickData W))
      (index : ℕ) (q : Q) (t : TickData W)
      → index < length names
      → t.detector ≡ some index
      → get_elem? w.queues (index % n) ≡ some q
      → queues' ≡ set w.queues (index % n) (qs.try_emplace t q).1
      → more ≡ (if (qs.try_emplace t q).0 then t ∷ [] else [])
      → IsFlow start w
      → IsFlow start (record w { queues = queues'; entered = w.entered ++ more })
  fed-IsFlow start w queues' more index q t lt detector held e m (order, replays) =
      let own : Owned (length names) n (index % n) t = (index, detector, lt, refl) in
      let q' = (qs.try_emplace t q).1 in
      (
        elim (Bool-cases (qs.try_emplace t q).0) [
          | inl yes_taken ↦
              let added : more ≡ t ∷ [] = m ∙ ap (λ b. if b then t ∷ [] else []) yes_taken in
              rw (e, added)
                (InOrder-entered laws (length names) n w.queues (index % n) q q' held w.entered
                  w.turns order t own (laws.contents-try_emplace t q yes_taken))
          | inr full ↦
              let added : more ≡ [] = m ∙ ap (λ b. if b then t ∷ [] else []) full in
              rw (e, added, append_nil w.entered)
                (InOrder-refused laws (length names) n w.queues (index % n) q q' held w.entered
                  w.turns order t own (laws.contents_when_full t q full))
        ],
        replays,
      )

  module _ (start : List (UnitProcessor W)) (all : length start ≡ length names) where
    -- A handler's round on a tick of its queue, which does not fault.
    pub round :
        (w : World W Q) (k : ℕ) (q : Q) (t : TickData W)
        → get_elem? w.queues k ≡ some q
        → qs.front q ≡ some t
        → IsFlow start w
        → (processors' : List (UnitProcessor W)) × (events : List SendEvent) × (process_turn
              serialize send_to q w.processors
            ≡ some (qs.pop q, processors', events))
          × IsFlow start (record w {
            queues = set w.queues k (qs.pop q);
            processors = processors';
            turns = w.turns ++ (t, events) ∷ [];
          })
    round w k q t held first (order, replays) =
        let (rest, front) = front_of q t first in
        let own : Owned (length names) n k t =
          (subst (All (Owned (length names) n k)) front (order.owned k q held)).0 in
        let (j, e, lt, _) = own in
        let (p, found) =
          get_elem?_total w.processors j (omega (arith, lt, all, replays.same_length)) in
        let (o, run) = validate-total t p in
        let events = published serialize send_to t o.processor o.passed in
        (
          set w.processors j o.processor,
          events,
          process_turn-runs serialize send_to q t w.processors j p o first e found run,
          (
            InOrder-taken laws (length names) n w.queues k q (qs.pop q) held w.entered w.turns order
                t own events rest front (laws.contents-pop q t rest front),
            Replays-turn serialize send_to start w.processors w.turns replays t j p o e found run,
          ),
        )

    abbrev after_round :
        World W Q → ℕ → TickData W → Q × List (UnitProcessor W) × List SendEvent → World W Q
    after_round w k t (q', processors', events) = record w {
      queues = set w.queues k q';
      processors = processors';
      turns = w.turns ++ (t, events) ∷ [];
    }

    Move-IsFlow :
        {w w' : World W Q} → Move W serialize send_to d w w' → IsFlow start w → IsFlow start w'
    Move-IsFlow (fed {w = w} data' now queues' messages e) (order, replays) =
        elim (dispatch_cases ready data' now w.queues queues' messages order.size h0 e) [
          | inl (same, none_in) ↦ rw (same, none_in, append_nil w.entered) (order, replays)
          | inr o ↦
              fed-IsFlow start w queues' (entering data' now d messages) o.index o.queue o.tick
                o.index_lt o.detector_lem o.queue_lem o.queues_lem o.entering_lem (order, replays)
        ]
    Move-IsFlow (handled {w = w} k q q' t processors' events held first e) flow =
        let (ps, es, run, after) = round w k q t held first flow in
        let same : (qs.pop q, ps, es) ≡ (q', processors', events) =
          some-injective _ _ (sym run ∙ e) in
        subst (λ r. IsFlow start (after_round w k t r)) same after

    pub Reach-IsFlow :
        {v w : World W Q} → IsFlow start v → Reach W serialize send_to d v w → IsFlow start w
    Reach-IsFlow flow here = flow
    Reach-IsFlow flow (next run move) = Move-IsFlow move (Reach-IsFlow flow run)

    pub IsFresh-IsFlow : (w : World W Q) → IsFresh laws n w → w.processors ≡ start → IsFlow start w
    IsFresh-IsFlow w f e = (
      IsFresh-InOrder laws (length names) n w f,
      rw (e, f.none_taken) (Replays-start serialize send_to start),
    )
