-- ===== src/Pipeline/Sent.antt =====
-- What the handlers have sent for each processor.
use mathlib.Core.Option.{some-injective}
use ultra_mds.Base.{
  ℕ, ◌≡◌, ◌≢◌, inl, inr, refl, sym, ap, ◌∙◌, Bool, Option, some, List, [], ◌∷◌, ◌++◌, length,
  length-set, get_elem?, set, get_elem?-set_same, get_elem?-set_other, get_elem?-lt, Bool-cases,
  eq_cases,
}
use ultra_mds.Base.Int.{ℤ}
use ultra_mds.Base.Bytes.{Bytes}
use ultra_mds.Double.{Double}
use ultra_mds.Tick.{TickData, TickDataMes, fill_proto_data}
use ultra_mds.Tick.Message.{empty_message}
use ultra_mds.Config.{Endpoint, SpecialConfig}
use ultra_mds.Processor.{UnitProcessor, Outcome}
use ultra_mds.Processor.Validate.{validate, get_multicast_endpoint}
use ultra_mds.Processor.Validate.History.{validate_all}
use ultra_mds.Processor.Validate.Replay.{Replayed, kept_of, validate-config, validate_all-snoc}
use ultra_mds.Handler.{SendEvent, transmit, send_message}
use ultra_mds.Handler.Round.{published}
use ultra_mds.Pipeline.Select.{
  ticks_of, ticks_of-append, ticks_of_own, ticks_of_other, sent_of, sent_of-append, sent_of_own,
  sent_of_other, append_assoc, append_nil, map-append,
}
use ultra_mds.Pipeline.Order.{taken}

module _ {W : Type 0} ⦃d : Double W⦄ (serialize : TickDataMes W → Option Bytes)
    (send_to : ℤ → Endpoint → Bytes → Bool) where
  -- The messages of the ticks that passed, in order.
  unfoldable pub messages_of : UnitProcessor W → List (TickData W) → List SendEvent
  messages_of p [] = []
  messages_of p (t ∷ ts) = send_message serialize send_to t p ++ messages_of p ts

  messages_of-append :
      (p : UnitProcessor W) (ts us : List (TickData W))
      → messages_of p (ts ++ us) ≡ messages_of p ts ++ messages_of p us
  unfolding messages_of
  messages_of-append p [] us = refl
  messages_of-append p (t ∷ ts) us =
      ap (λ rest. send_message serialize send_to t p ++ rest) (messages_of-append p ts us)
      ∙ sym
          (append_assoc (send_message serialize send_to t p) (messages_of p ts) (messages_of p us))

  -- A message depends on the rules of its processor, not on the last timestamp.
  send_message-config :
      (t : TickData W) (p q : UnitProcessor W)
      → q.config ≡ p.config
      → send_message serialize send_to t q ≡ send_message serialize send_to t p
  unfolding send_message get_multicast_endpoint
  send_message-config t p q e =
      ap
        (λ (c : SpecialConfig W).
          transmit serialize send_to t.local_receive_time c.udp_config.target_endpoint
            (serialize (fill_proto_data t (empty_message d.nought))))
        e

  published-messages_of :
      (t : TickData W) (p : UnitProcessor W) (o : Outcome W)
      → o.processor.config ≡ p.config
      → published serialize send_to t o.processor o.passed ≡ messages_of p (kept_of t o)
  unfolding messages_of
  published-messages_of t p o e = elim (Bool-cases o.passed) [
    | inl passed ↦ rw passed (
        send_message-config t p o.processor e
        ∙ sym (append_nil (send_message serialize send_to t p)))
    | inr failed ↦ rw failed refl
  ]

  -- For each processor, the ticks that its handler took have been validated in order from the
  -- processor's first state on, its state is the one that this leaves, and what was sent for them are
  -- the messages of those that passed.
  pub record Replays (start processors : List (UnitProcessor W))
      (turns : List (TickData W × List SendEvent)) : Type 0 where
    pub same_length : length processors ≡ length start
    pub replay :
        (i : ℕ) (p : UnitProcessor W)
        → get_elem? start i ≡ some p
        → (r : Replayed W) × (get_elem? processors i ≡ some r.1)
          × (validate_all (ticks_of i (taken turns)) p ≡ some r)
          × (sent_of i turns ≡ messages_of p r.0)
          × (r.1.config ≡ p.config)

  pub Replays-start : (start : List (UnitProcessor W)) → Replays start start []
  unfolding validate_all ticks_of sent_of messages_of
  Replays-start start = record {
    same_length = refl;
    replay = λ i p e. (([], p), e, refl, refl, refl);
  }

  module _ (start processors : List (UnitProcessor W)) (turns : List (TickData W × List SendEvent))
      (inv : Replays start processors turns) (t : TickData W) (j : ℕ) (p : UnitProcessor W)
      (o : Outcome W) (e : t.detector ≡ some j) (held : get_elem? processors j ≡ some p)
      (run : validate t p ≡ some o) where
    abbrev events : List SendEvent
    events = published serialize send_to t o.processor o.passed

    taken_snoc :
        (i : ℕ)
        → ticks_of i (taken (turns ++ (t, events) ∷ []))
          ≡ ticks_of i (taken turns) ++ ticks_of i (t ∷ [])
    taken_snoc i =
        ap (ticks_of i) (map-append (λ turn. turn.0) turns ((t, events) ∷ []))
        ∙ ticks_of-append i (taken turns) (t ∷ [])

    abbrev ReplayAt : ℕ → UnitProcessor W → Type 0
    ReplayAt i p₀ =
        (r : Replayed W) × (get_elem? (set processors j o.processor) i ≡ some r.1)
        × (validate_all (ticks_of i (taken (turns ++ (t, events) ∷ []))) p₀ ≡ some r)
        × (sent_of i (turns ++ (t, events) ∷ []) ≡ messages_of p₀ r.0)
        × (r.1.config ≡ p₀.config)

    own_turn : (i : ℕ) (p₀ : UnitProcessor W) → i ≡ j → get_elem? start i ≡ some p₀ → ReplayAt i p₀
    own_turn i p₀ same first =
        let (r, now, replay, sent, config) = inv.replay i p₀ first in
        let now_p : r.1 ≡ p =
          some-injective _ _ (sym now ∙ ap (get_elem? processors) same ∙ held) in
        let run' : validate t r.1 ≡ some o = ap (validate t) now_p ∙ run in
        let config' : o.processor.config ≡ p₀.config = validate-config t r.1 o run' ∙ config in
        (
          (r.0 ++ kept_of t o, o.processor),
          ap (get_elem? (set processors j o.processor)) same
              ∙ get_elem?-set_same processors j o.processor (get_elem?-lt processors j held),
          ap (λ ts. validate_all ts p₀)
                (taken_snoc i
                  ∙ ap (λ ts. ticks_of i (taken turns) ++ ts) (ticks_of_own i j t e same))
              ∙ validate_all-snoc (ticks_of i (taken turns)) t p₀ r o replay run',
          sent_of-append i turns ((t, events) ∷ [])
              ∙ ap (λ es. sent_of i turns ++ es) (sent_of_own i j t e events same)
              ∙ ap (λ es. es ++ events) sent
              ∙ ap (λ es. messages_of p₀ r.0 ++ es) (published-messages_of t p₀ o config')
              ∙ sym (messages_of-append p₀ r.0 (kept_of t o)),
          config',
        )

    other_turn :
        (i : ℕ) (p₀ : UnitProcessor W) → i ≢ j → get_elem? start i ≡ some p₀ → ReplayAt i p₀
    other_turn i p₀ differ first =
        let (r, now, replay, sent, config) = inv.replay i p₀ first in
        (
          r,
          get_elem?-set_other processors j o.processor i differ ∙ now,
          ap (λ ts. validate_all ts p₀)
                (taken_snoc i
                  ∙ ap (λ ts. ticks_of i (taken turns) ++ ts) (ticks_of_other i j t e differ)
                  ∙ append_nil (ticks_of i (taken turns)))
              ∙ replay,
          sent_of-append i turns ((t, events) ∷ [])
              ∙ ap (λ es. sent_of i turns ++ es) (sent_of_other i j t e events differ)
              ∙ append_nil (sent_of i turns)
              ∙ sent,
          config,
        )

    pub Replays-turn :
        Replays start
          (set processors j o.processor)
          (turns ++ (t, published serialize send_to t o.processor o.passed) ∷ [])
    Replays-turn = record {
      same_length = length-set processors j o.processor ∙ inv.same_length;
      replay = λ i p₀ first. elim (eq_cases i j) [
        | inl same ↦ own_turn i p₀ same first
        | inr differ ↦ other_turn i p₀ differ first
      ];
    }
