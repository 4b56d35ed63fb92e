-- ===== src/Pipeline/Capacity.antt =====
-- How full the queues are.
use mathlib.Core.Path.{subst}
use mathlib.Core.Option.{some-injective}
use ultra_mds.Base.{
  ℕ, ◌%◌, ◌<◌, ◌≤◌, ◌≡◌, ◌≢◌, ◌↔◌, inl, inr, refl, sym, ap, ◌∙◌, Bool, true, false, Option, some,
  List, [], ◌∷◌, >>=-eq-some, if◌then◌else◌, ltb, length, length-set, length-append, get_elem?,
  get_elem?-set_same, get_elem?-set_other, get_elem?-lt, set, eq_cases, Bool-cases, List-cases,
  arith,
}
use ultra_mds.Base.Int.{ℤ}
use ultra_mds.Base.Bytes.{Bytes}
use ultra_mds.Double.{Double}
use ultra_mds.Ctp.{DepthMarketData}
use ultra_mds.Tick.{TickData, TickDataMes, make_tick, instrument_id_size}
use ultra_mds.Config.{Endpoint}
use ultra_mds.Queue.{SpscQueue, IsSpscQueue}
use ultra_mds.Processor.{UnitProcessor}
use ultra_mds.Dispatcher.{Dispatcher, DispatchMessage, dropped, dispatch, offer_at}
use ultra_mds.Dispatcher.Mapping.{first_index}
use ultra_mds.Dispatcher.Route.{IsReady, dispatch-routes}
use ultra_mds.Handler.{SendEvent, process_turn, turn_on, handle_tick}
use ultra_mds.Pipeline.{World, Move, fed, handled, Reach, here, next}
use ultra_mds.Pipeline.Offer.{key_of, dispatch_cases}

ltb_lem : (a b : ℕ) → ltb a b ≡ true → a < b
ltb_lem a b h = ground arith

ltb_full : (a b : ℕ) → ltb a b ≡ false → a ≤ b → a ≡ b
ltb_full a b h k = ground arith

ltb_not : (a b : ℕ) → a ≡ b → ltb a b ≡ false
ltb_not a b h = ground arith

drop_iff : {P : Type 0} (b : Bool) → (b ≡ false ↔ P) → ((if b then [] else dropped ∷ []) ≢ [] ↔ P)
drop_iff true (to, from) = ((λ e. absurd (e refl)), λ p e. absurd (cc (from p)))
drop_iff false (to, from) = ((λ e. to refl), λ p e. absurd (cc e))

module _ {W Q : Type 0} ⦃qs : SpscQueue (TickData W) Q⦄ (laws : IsSpscQueue (TickData W) Q)
    (n size : ℕ) where
  -- There is room for `size` ticks in the queue, which holds no more.
  abbrev pub Holds : Q → Type 0
  Holds q = (laws.capacity q ≡ size) × (length (laws.contents q) ≤ size)

  pub record IsBounded (queues : List Q) : Type 0 where
    pub count : length queues ≡ n
    pub holds : (k : ℕ) (q : Q) → get_elem? queues k ≡ some q → Holds q

  offered-Holds : (t : TickData W) (q : Q) → Holds q → Holds (qs.try_emplace t q).1
  offered-Holds t q (room, few) = elim (Bool-cases (qs.try_emplace t q).0) [
    | inl yes_taken ↦
        let below : length (laws.contents q) < laws.capacity q =
          ltb_lem _ _ (sym (laws.room_lem t q) ∙ yes_taken) in
        (
          laws.capacity-try_emplace t q ∙ room,
          rw (laws.contents-try_emplace t q yes_taken)
              (omega (arith, below, room, length-append (laws.contents q) (t ∷ []))),
        )
    | inr full ↦ (laws.capacity-try_emplace t q ∙ room, rw (laws.contents_when_full t q full) few)
  ]

  popped-Holds : (t : TickData W) (q : Q) → qs.front q ≡ some t → Holds q → Holds (qs.pop q)
  popped-Holds t q e (room, few) = elim (List-cases (laws.contents q)) [
    | inl h ↦ absurd (cc (e, laws.front_of_empty q h))
    | inr (a, rest, h) ↦ (
      laws.capacity-pop q ∙ room,
      rw (laws.contents-pop q a rest h) (omega (arith, few, ap length h)),
    )
  ]

  set-IsBounded :
      (queues : List Q) (k : ℕ) (q q' : Q)
      → get_elem? queues k ≡ some q
      → Holds q'
      → IsBounded queues
      → IsBounded (set queues k q')
  set-IsBounded queues k q q' held new bounded = record {
    count = length-set queues k q' ∙ bounded.count;
    holds = λ j x h. elim (eq_cases j k) [
      | inl e ↦
          let same : q' ≡ x = some-injective _ _ (
            sym (get_elem?-set_same queues k q' (get_elem?-lt queues k held))
            ∙ ap (get_elem? (set queues k q')) (sym e)
            ∙ h) in
          subst Holds same new
      | inr ne ↦ bounded.holds j x (sym (get_elem?-set_other queues k q' j ne) ∙ h)
    ];
  }

module _ {W Q : Type 0} ⦃double : Double W⦄ ⦃qs : SpscQueue (TickData W) Q⦄
    (laws : IsSpscQueue (TickData W) Q) (serialize : TickDataMes W → Option Bytes)
    (send_to : ℤ → Endpoint → Bytes → Bool) {names : List Bytes} {n : ℕ} {d : Dispatcher}
    (ready : IsReady names n d) (h0 : 0 < n) (size : ℕ) where
  -- The queue that a round leaves.
  process_turn-pop :
      (q q' : Q) (t : TickData W) (processors processors' : List (UnitProcessor W))
      (events : List SendEvent)
      → qs.front q ≡ some t
      → process_turn serialize send_to q processors ≡ some (q', processors', events)
      → q' ≡ qs.pop q
  unfolding process_turn
  process_turn-pop q q' t processors processors' events first e =
      let on : turn_on serialize send_to q processors (some t) ≡ some (q', processors', events) =
        ap (turn_on serialize send_to q processors) (sym first) ∙ e in
      let (r, _, f) = >>=-eq-some (handle_tick serialize send_to t processors) _ on in
      ap (λ (x : Q × List (UnitProcessor W) × List SendEvent). x.0) (sym (some-injective _ _ f))

  Move-IsBounded :
      {w w' : World W Q}
      → Move W serialize send_to d w w'
      → IsBounded laws n size w.queues
      → IsBounded laws n size w'.queues
  Move-IsBounded (fed {w = w} data' now queues' messages e) b =
      elim (dispatch_cases ready data' now w.queues queues' messages b.count h0 e) [
        | inl (same, _) ↦ rw same b
        | inr o ↦ rw o.queues_lem (
            set-IsBounded laws n size w.queues (o.index % n) o.queue _ o.queue_lem
              (offered-Holds laws n size o.tick o.queue (b.holds (o.index % n) o.queue o.queue_lem))
              b)
      ]
  Move-IsBounded (handled {w = w} k q q' t processors' events held first e) b =
      rw (process_turn-pop q q' t w.processors processors' events first e) (
        set-IsBounded laws n size w.queues k q (qs.pop q) held
          (popped-Holds laws n size t q first (b.holds k q held)) b)

  pub Reach-IsBounded :
      {v w : World W Q}
      → IsBounded laws n size v.queues
      → Reach W serialize send_to d v w
      → IsBounded laws n size w.queues
  Reach-IsBounded b here = b
  Reach-IsBounded b (next run move) = Move-IsBounded move (Reach-IsBounded b run)

module _ {W Q : Type 0} ⦃qs : SpscQueue (TickData W) Q⦄ (laws : IsSpscQueue (TickData W) Q)
    (n : ℕ) where
  -- A listed contract whose queue is full.
  abbrev pub IsFull : ℕ → List Bytes → DepthMarketData W → List Q → Type 0
  IsFull size names data' queues =
      (i : ℕ) × (q : Q) × (first_index (key_of data') names ≡ some i)
      × (get_elem? queues (i % n) ≡ some q)
      × (length (laws.contents q) ≡ size)

  same_length :
      (queues : List Q) (i j : ℕ) (q r : Q)
      → i ≡ j
      → get_elem? queues (i % n) ≡ some q
      → get_elem? queues (j % n) ≡ some r
      → length (laws.contents q) ≡ length (laws.contents r)
  same_length queues i j q r e at_i at_j =
      let same : q ≡ r =
        some-injective _ _ (sym at_i ∙ ap (λ k. get_elem? queues (k % n)) e ∙ at_j) in
      ap (λ x. length (laws.contents x)) same

module _ {W Q : Type 0} ⦃qs : SpscQueue (TickData W) Q⦄ (laws : IsSpscQueue (TickData W) Q)
    {names : List Bytes} {n : ℕ} {d : Dispatcher} (ready : IsReady names n d) (h0 : 0 < n)
    (size : ℕ) where
  -- A dispatch on such queues drops the record exactly if its queue is full.
  pub dispatch_drops :
      (data' : DepthMarketData W) (now : ℤ) (queues : List Q)
      → length (key_of data') < instrument_id_size
      → IsBounded laws n size queues
      → (queues' : List Q) × (messages : List DispatchMessage) × (dispatch data' now d queues
          ≡ some (queues', messages))
        × (messages ≢ [] ↔ IsFull laws n size names data' queues)
  dispatch_drops data' now queues fits b =
      elim (dispatch-routes ready data' now queues fits b.count h0) [
        | inl (h, run) ↦ (
          queues,
          [],
          run,
          (λ e. absurd (e refl), λ (i, q, listed, _, _). absurd (cc (h, listed))),
        )
        | inr (i, q, h, held, run) ↦
            let t = make_tick data' (some i) now in
            let (room, few) = b.holds (i % n) q held in
            let test : (qs.try_emplace t q).0 ≡ ltb (length (laws.contents q)) size =
              laws.room_lem t q ∙ ap (ltb (length (laws.contents q))) room in
            let to : (qs.try_emplace t q).0 ≡ false → IsFull laws n size names data' queues =
              λ e. (i, q, h, held, ltb_full _ size (sym test ∙ e) few) in
            let from : IsFull laws n size names data' queues → (qs.try_emplace t q).0 ≡ false =
              λ (j, r, listed, at_j, full).
                test
                ∙ ltb_not (length (laws.contents q)) size (
                    same_length laws n queues i j q r (some-injective _ _ (sym h ∙ listed)) held
                      at_j
                    ∙ full) in
            let (queues', messages) = offer_at t (i % n) queues q in
            (queues', messages, run, drop_iff (qs.try_emplace t q).0 (to, from))
      ]
