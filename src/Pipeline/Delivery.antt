-- ===== src/Pipeline/Delivery.antt =====
-- What the started system delivers.
use mathlib.Core.Path.{subst}
use mathlib.Core.Option.{some-injective}
use native.Mathlib.Nat.{mod-lt}
use ultra_mds.Base.{
  ℕ, ◌%◌, ◌<◌, ◌≡◌, refl, sym, ap, ◌∙◌, Bool, true, Option, some, List, [], ◌∷◌, ◌++◌, length,
  get_elem?, get_elem?-set_same, get_elem?-lt, set,
}
use ultra_mds.Base.Int.{ℤ}
use ultra_mds.Base.Bytes.{Bytes}
use ultra_mds.Double.{Double}
use ultra_mds.Tick.{TickData, TickDataMes}
use ultra_mds.Config.{Endpoint}
use ultra_mds.Queue.{SpscQueue, IsSpscQueue}
use ultra_mds.Processor.{UnitProcessor}
use ultra_mds.Processor.Validate.History.{validate_all, IsNearlySorted, validate_all-IsNearlySorted}
use ultra_mds.Processor.Validate.Replay.{Replayed}
use ultra_mds.Dispatcher.{Dispatcher}
use ultra_mds.Dispatcher.Route.{IsReady, get_elem?_total}
use ultra_mds.Pipeline.{World, Reach, here, next, handled}
use ultra_mds.Pipeline.Select.{ticks_of, sent_of, append_nil}
use ultra_mds.Pipeline.Order.{taken}
use ultra_mds.Pipeline.Sent.{messages_of}
use ultra_mds.Pipeline.Flow.{IsFresh, IsFlow, round, Reach-IsFlow, IsFresh-IsFlow}

module _ {W Q : Type 0} ⦃double : Double W⦄ ⦃qs : SpscQueue (TickData W) Q⦄
    (laws : IsSpscQueue (TickData W) Q) (serialize : TickDataMes W → Option Bytes)
    (send_to : ℤ → Endpoint → Bytes → Bool) {names : List Bytes} {n : ℕ} {d : Dispatcher}
    (ready : IsReady names n d) (h0 : 0 < n) (start w : World W Q) (fresh : IsFresh laws n start)
    (all : length start.processors ≡ length names)
    (reach : Reach W serialize send_to d start w) where
  reached-IsFlow : IsFlow laws serialize send_to ready h0 start.processors w
  reached-IsFlow =
      Reach-IsFlow laws serialize send_to ready h0 start.processors all
        (IsFresh-IsFlow laws serialize send_to ready h0 start.processors all start fresh refl) reach

  -- From n empty queues on, at least one, in every interleaving of dispatches and rounds, the ticks of
  -- a processor that its queue took are those that its handler has taken and then those that wait in
  -- the queue: none is lost, none comes twice, and their order is kept.
  pub delivery_in_order :
      (i : ℕ) (q : Q)
      → get_elem? w.queues (i % n) ≡ some q
      → ticks_of i w.entered ≡ ticks_of i (taken w.turns) ++ ticks_of i (laws.contents q)
  delivery_in_order i q held = reached-IsFlow.0.order i q held

  -- The ticks that a handler has taken come first among those that entered.
  pub taken_first :
      (i : ℕ)
      → (rest : List (TickData W)) × (ticks_of i w.entered ≡ ticks_of i (taken w.turns) ++ rest)
  taken_first i =
      let (q, held) = get_elem?_total w.queues (i % n) (rw reached-IsFlow.0.size (mod-lt i h0)) in
      (ticks_of i (laws.contents q), delivery_in_order i q held)

  -- From a start on, in every interleaving of dispatches and rounds, what has been sent for a
  -- processor are the messages of the ticks that pass when the processor's ticks, as its handler took
  -- them, are validated in order from its first state on.
  pub delivery_sends :
      (i : ℕ) (p : UnitProcessor W)
      → get_elem? start.processors i ≡ some p
      → (r : Replayed W) × (validate_all (ticks_of i (taken w.turns)) p ≡ some r)
        × (sent_of i w.turns ≡ messages_of serialize send_to p r.0)
        × (get_elem? w.processors i ≡ some r.1)
  delivery_sends i p first =
      let (r, now, replay, sent, _) = reached-IsFlow.1.replay i p first in (r, replay, sent, now)

  -- If moreover the processor's timestamp check is on, no tick whose message was sent is behind one
  -- whose message was sent before it by more than the tolerance.
  pub delivery-IsNearlySorted :
      (i : ℕ) (p : UnitProcessor W)
      → get_elem? start.processors i ≡ some p
      → p.config.enable_timestamp_check ≡ true
      → (kept : List (TickData W)) × (sent_of i w.turns ≡ messages_of serialize send_to p kept)
        × IsNearlySorted p.config kept
  delivery-IsNearlySorted i p first on =
      let (r, replay, sent, _) = delivery_sends i p first in
      let (r', replay', sorted) = validate_all-IsNearlySorted (ticks_of i (taken w.turns)) p on in
      let same : r' ≡ r = some-injective _ _ (sym replay' ∙ replay) in
      (r.0, sent, subst (λ (x : Replayed W). IsNearlySorted p.config x.0) same sorted)

module _ {W Q : Type 0} ⦃double : Double W⦄ ⦃qs : SpscQueue (TickData W) Q⦄
    (serialize : TickDataMes W → Option Bytes) (send_to : ℤ → Endpoint → Bytes → Bool)
    (d : Dispatcher) where
  -- A run that starts with a given step.
  pub Reach-step_first :
      {u v w : World W Q}
      → Reach W serialize send_to d u v
      → Reach W serialize send_to d v w
      → Reach W serialize send_to d u w
  Reach-step_first run here = run
  Reach-step_first run (next more move) = next (Reach-step_first run more) move

module _ {W Q : Type 0} ⦃double : Double W⦄ ⦃qs : SpscQueue (TickData W) Q⦄
    (laws : IsSpscQueue (TickData W) Q) (serialize : TickDataMes W → Option Bytes)
    (send_to : ℤ → Endpoint → Bytes → Bool) {names : List Bytes} {n : ℕ} {d : Dispatcher}
    (ready : IsReady names n d) (h0 : 0 < n) (start : List (UnitProcessor W))
    (all : length start ≡ length names) where
  -- The rounds of the k-th handler until its queue is empty.
  rounds :
      (ts : List (TickData W)) (w : World W Q) (k : ℕ) (q : Q)
      → IsFlow laws serialize send_to ready h0 start w
      → get_elem? w.queues k ≡ some q
      → laws.contents q ≡ ts
      → (v : World W Q) × (q' : Q) × Reach W serialize send_to d w v
        × (v.entered ≡ w.entered)
        × (get_elem? v.queues k ≡ some q')
        × (laws.contents q' ≡ [])
  rounds [] w k q flow held e = (w, q, here, refl, held, e)
  rounds (t ∷ ts) w k q flow held e =
      let first = laws.front_lem q t ts e in
      let (ps, es, run, flow') =
        round laws serialize send_to ready h0 start all w k q t held first flow in
      let held' = get_elem?-set_same w.queues k (qs.pop q) (get_elem?-lt w.queues k held) in
      let (v, q', more, same, at_k, empty) =
        rounds ts
          (record w {
            queues = set w.queues k (qs.pop q);
            processors = ps;
            turns = w.turns ++ (t, es) ∷ [];
          })
          k (qs.pop q) flow' held' (laws.contents-pop q t ts e) in
      (
        v,
        q',
        Reach-step_first serialize send_to d
            (next here (handled k q (qs.pop q) t ps es held first run)) more,
        same,
        at_k,
        empty,
      )

module _ {W Q : Type 0} ⦃double : Double W⦄ ⦃qs : SpscQueue (TickData W) Q⦄
    (laws : IsSpscQueue (TickData W) Q) (serialize : TickDataMes W → Option Bytes)
    (send_to : ℤ → Endpoint → Bytes → Bool) {names : List Bytes} {n : ℕ} {d : Dispatcher}
    (ready : IsReady names n d) (h0 : 0 < n) (start w : World W Q) (fresh : IsFresh laws n start)
    (all : length start.processors ≡ length names)
    (reach : Reach W serialize send_to d start w) where
  -- From every state that the system reaches, rounds of a processor's handler lead to a state in which
  -- it has taken all the ticks of the processor that its queue took, in their order, and no round on the
  -- way faults.
  pub delivery_completes :
      (i : ℕ)
      → (v : World W Q) × Reach W serialize send_to d w v
        × (v.entered ≡ w.entered)
        × (ticks_of i (taken v.turns) ≡ ticks_of i w.entered)
  delivery_completes i =
      let now = reached-IsFlow laws serialize send_to ready h0 start w fresh all reach in
      let (q, held) = get_elem?_total w.queues (i % n) (rw now.0.size (mod-lt i h0)) in
      let (v, q', more, same, at_i, empty) =
        rounds laws serialize send_to ready h0 start.processors all (laws.contents q) w (i % n) q
          now held refl in
      let later = Reach-IsFlow laws serialize send_to ready h0 start.processors all now more in
      let none_left : ticks_of i (laws.contents q') ≡ [] = rw empty (unfold ticks_of in refl) in
      (
        v,
        more,
        same,
        sym (append_nil (ticks_of i (taken v.turns)))
            ∙ ap (λ ts. ticks_of i (taken v.turns) ++ ts) (sym none_left)
            ∙ sym (later.0.order i q' at_i)
            ∙ ap (ticks_of i) same,
      )
