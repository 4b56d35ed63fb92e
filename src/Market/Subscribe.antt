-- ===== src/Market/Subscribe.antt =====
-- The subscriptions of a session.
use ultra_mds.Base.{
  ℕ, ◌≡◌, inl, inr, refl, sym, ap, ◌∙◌, Bool, true, false, Option, none, some, List, [], ◌∷◌, ◌++◌,
  ◌==◌, if◌then◌else◌, length, map, arith, Option-cases,
}
use ultra_mds.Base.Int.{ℤ, pos, eq_ℤ}
use ultra_mds.Base.Bytes.{Bytes}
use ultra_mds.Ctp.{
  RspUserLogin, RspInfo, SpecificInstrument, DepthMarketData, Callback, front_connected,
  front_disconnected, heart_beat_warning, rsp_user_login, rsp_error, rsp_sub_market_data,
  rsp_un_sub_market_data, rtn_depth_market_data, rsp_user_logout, rsp_qry_multicast_instrument,
  rsp_sub_for_quote_rsp, rsp_un_sub_for_quote_rsp, rtn_for_quote_rsp,
}
use ultra_mds.Tick.{TickData}
use ultra_mds.Queue.{SpscQueue}
use ultra_mds.Dispatcher.{Dispatcher, DispatchMessage, dispatch}
use ultra_mds.Login.{Loginer, LoginEvent, login}
use ultra_mds.System.{ContractContainer}
use ultra_mds.Market.{
  Api, MarketEvent, login_event, subscribe_called, login_failed, disconnected, login_refused,
  no_contracts, subscribe_sent, subscribe_failed, instrument_subscribed, instrument_refused,
  all_processed, dispatched, on_front_connected, on_front_disconnected, subscribe,
  on_rsp_user_login, logged, on_rsp_sub_market_data, on_rtn_depth_market_data, call_back, session,
}

-- The subscriptions among the events, each with its list and count.
abbrev pub subscriptions : List MarketEvent → List (List Bytes × ℕ)
subscriptions [] = []
subscriptions (subscribe_called contracts count ∷ events) =
    (contracts, count) ∷ subscriptions events
subscriptions (_ ∷ events) = subscriptions events

-- Whether the exchange accepts a login.
abbrev accepts : {W : Type 0} → Callback W → Bool
accepts (rsp_user_login (some _) none _ _) = true
accepts (rsp_user_login (some _) (some info) _ _) = eq_ℤ info.error_id (pos 0)
accepts _ = false

-- One subscription of all the contracts, if there are any, behind a login that is accepted.
abbrev wanted : {W : Type 0} → List Bytes → Callback W → List (List Bytes × ℕ)
wanted contracts callback =
    if accepts callback
    then (if length contracts == 0 then [] else (contracts, length contracts) ∷ [])
    else []

-- The subscriptions that the callbacks call for.
abbrev pub expected :
    {W : Type 0} → List Bytes → List (Api × ℤ × Callback W) → List (List Bytes × ℕ)
expected contracts [] = []
expected contracts ((api, now, callback) ∷ calls) =
    wanted contracts callback ++ expected contracts calls

subscriptions-append :
    (events more : List MarketEvent)
    → subscriptions (events ++ more) ≡ subscriptions events ++ subscriptions more
subscriptions-append [] more = refl
subscriptions-append (subscribe_called contracts count ∷ events) more =
    ap (λ rest. (contracts, count) ∷ rest) (subscriptions-append events more)
subscriptions-append (login_event e ∷ events) more = subscriptions-append events more
subscriptions-append (login_failed c ∷ events) more = subscriptions-append events more
subscriptions-append (disconnected c r ∷ events) more = subscriptions-append events more
subscriptions-append (login_refused c m ∷ events) more = subscriptions-append events more
subscriptions-append (no_contracts ∷ events) more = subscriptions-append events more
subscriptions-append (subscribe_sent c ∷ events) more = subscriptions-append events more
subscriptions-append (subscribe_failed c ∷ events) more = subscriptions-append events more
subscriptions-append (instrument_subscribed i r ∷ events) more = subscriptions-append events more
subscriptions-append (instrument_refused i c m r ∷ events) more = subscriptions-append events more
subscriptions-append (all_processed r ∷ events) more = subscriptions-append events more
subscriptions-append (dispatched m ∷ events) more = subscriptions-append events more

subscriptions-login : (events : List LoginEvent) → subscriptions (map login_event events) ≡ []
subscriptions-login [] = refl
subscriptions-login (e ∷ events) = subscriptions-login events

subscriptions-dispatched :
    (messages : List DispatchMessage) → subscriptions (map dispatched messages) ≡ []
subscriptions-dispatched [] = refl
subscriptions-dispatched (m ∷ messages) = subscriptions-dispatched messages

subscriptions-on_front_connected :
    (api : Api) (loginer : Loginer) → subscriptions (on_front_connected api loginer) ≡ []
unfolding on_front_connected
subscriptions-on_front_connected api loginer =
    let (result, events) = login api.login_answer loginer in
    let tail : List MarketEvent = if eq_ℤ result (pos 0) then [] else login_failed result ∷ [] in
    let quiet : subscriptions tail ≡ [] = ground arith in
    subscriptions-append (map login_event events) tail ∙ rw (subscriptions-login events, quiet) refl

abbrev none_on_fault : Option (List MarketEvent) → List MarketEvent
none_on_fault none = []
none_on_fault (some events) = events

subscriptions-on_rsp_sub_market_data :
    (specific : Option SpecificInstrument) (info : Option RspInfo) (request_id : ℤ) (is_last : Bool)
    → subscriptions (none_on_fault (on_rsp_sub_market_data specific info request_id is_last)) ≡ []
unfolding on_rsp_sub_market_data
subscriptions-on_rsp_sub_market_data specific info request_id is_last = ground arith

subscriptions-on_rsp_user_login :
    (W : Type 0) (api : Api) (container : ContractContainer) (has_login : Option RspUserLogin)
    (info : Option RspInfo) (request_id : ℤ) (is_last : Bool)
    → subscriptions (none_on_fault (on_rsp_user_login api container has_login info))
      ≡ wanted {W = W} container.contracts (rsp_user_login has_login info request_id is_last)
unfolding on_rsp_user_login subscribe
subscriptions-on_rsp_user_login W api container has_login info request_id is_last = ground arith

abbrev events_of : {Q : Type 0} → Option (List Q × List MarketEvent) → List MarketEvent
events_of none = []
events_of (some (_, events)) = events

subscriptions-logged :
    {Q : Type 0} (queues : List Q) (events : Option (List MarketEvent))
    → subscriptions (events_of (logged queues events)) ≡ subscriptions (none_on_fault events)
subscriptions-logged queues none = refl
subscriptions-logged queues (some events) = refl

-- What holds of a run's subscriptions holds of the events that it returns.
returned :
    {Q : Type 0} {run : Option (List Q × List MarketEvent)} {queues' : List Q}
    {events : List MarketEvent} {list : List (List Bytes × ℕ)}
    → run ≡ some (queues', events)
    → subscriptions (events_of run) ≡ list
    → subscriptions events ≡ list
returned e f = ap (λ r. subscriptions (events_of r)) (sym e) ∙ f

module _ {W Q : Type 0} ⦃qs : SpscQueue (TickData W) Q⦄ (loginer : Loginer)
    (container : ContractContainer) (d : Dispatcher) where
  subscriptions-dispatch :
      (now : ℤ) (data' : Option (DepthMarketData W)) (queues : List Q)
      → subscriptions (events_of (on_rtn_depth_market_data now d data' queues)) ≡ []
  unfolding on_rtn_depth_market_data
  subscriptions-dispatch now none queues = refl
  subscriptions-dispatch now (some field) queues =
      elim (Option-cases (dispatch field now d queues)) [
        | inl h ↦ rw h refl
        | inr ((queues', messages), h) ↦ rw h (subscriptions-dispatched messages)
      ]

  -- The subscriptions of one callback.
  subscriptions-call_back :
      (api : Api) (now : ℤ) (callback : Callback W) (queues : List Q)
      → subscriptions (events_of (call_back api now loginer container d callback queues))
        ≡ wanted container.contracts callback
  unfolding call_back
  subscriptions-call_back api now front_connected queues =
      subscriptions-on_front_connected api loginer
  subscriptions-call_back api now (front_disconnected r) queues =
      unfold on_front_disconnected in refl
  subscriptions-call_back api now (heart_beat_warning l) queues = refl
  subscriptions-call_back api now (rsp_user_login has info r l) queues =
      subscriptions-logged queues (on_rsp_user_login api container has info)
      ∙ subscriptions-on_rsp_user_login W api container has info r l
  subscriptions-call_back api now (rsp_error info r l) queues = refl
  subscriptions-call_back api now (rsp_sub_market_data s info r l) queues =
      subscriptions-logged queues (on_rsp_sub_market_data s info r l)
      ∙ subscriptions-on_rsp_sub_market_data s info r l
  subscriptions-call_back api now (rsp_un_sub_market_data s info r l) queues = refl
  subscriptions-call_back api now (rtn_depth_market_data data') queues =
      subscriptions-dispatch now data' queues
  subscriptions-call_back api now (rsp_user_logout field info r l) queues = refl
  subscriptions-call_back api now (rsp_qry_multicast_instrument field info r l) queues = refl
  subscriptions-call_back api now (rsp_sub_for_quote_rsp s info r l) queues = refl
  subscriptions-call_back api now (rsp_un_sub_for_quote_rsp s info r l) queues = refl
  subscriptions-call_back api now (rtn_for_quote_rsp field) queues = refl

  -- In a session that does not fault the subscriptions are those that its logins call for: behind each
  -- response that accepts a login, and nowhere else, one of all the contracts with their count, and none if
  -- there are no contracts.
  pub session_subscribes :
      (calls : List (Api × ℤ × Callback W)) (queues queues' : List Q) (events : List MarketEvent)
      → session loginer container d calls queues ≡ some (queues', events)
      → subscriptions events ≡ expected container.contracts calls
  unfolding session
  session_subscribes [] queues queues' events e = returned e refl
  session_subscribes ((api, now, callback) ∷ calls) queues queues' events e =
      let first = call_back api now loginer container d callback queues in
      elim (Option-cases first) [
        | inl h ↦
            let run : session loginer container d ((api, now, callback) ∷ calls) queues ≡ none =
              rw h refl in
            absurd (cc (e, run))
        | inr ((queues₁, now_events), h) ↦
            elim (Option-cases (session loginer container d calls queues₁)) [
              | inl k ↦
                  let run : session loginer container d ((api, now, callback) ∷ calls) queues
                      ≡ none =
                    rw (h, k) refl in
                  absurd (cc (e, run))
              | inr ((queues₂, more), k) ↦
                  let run : session loginer container d ((api, now, callback) ∷ calls) queues
                      ≡ some (queues₂, now_events ++ more) =
                    rw (h, k) refl in
                  let now_lem = returned h (subscriptions-call_back api now callback queues) in
                  let more_lem = session_subscribes calls queues₁ queues₂ more k in
                  returned e (
                    ap (λ r. subscriptions (events_of r)) run
                    ∙ subscriptions-append now_events more
                    ∙ rw (now_lem, more_lem) refl)
            ]
      ]
