-- ===== src/Market/Session.antt =====
-- A session's callbacks on the dispatcher and its queues.
use ultra_mds.Base.{
  Bool-cases, Bool, true, false, not, ◌==◌, Option, none, if◌then◌else◌, arith, ℕ, ◌%◌, ◌<◌, ◌≡◌,
  inl, inr, refl, ◌∙◌, some, List, [], ◌∷◌, ◌++◌, length, length-set, All, map,
}
use ultra_mds.Base.Int.{ℤ}
use ultra_mds.Base.Bytes.{Bytes, c_string}
use ultra_mds.Ctp.{
  RspUserLogin, RspInfo, SpecificInstrument, DepthMarketData, Callback, front_connected,
  front_disconnected, heart_beat_warning, rsp_user_login, rsp_error, rsp_sub_market_data,
  rsp_un_sub_market_data, rtn_depth_market_data, rsp_user_logout, rsp_qry_multicast_instrument,
  rsp_sub_for_quote_rsp, rsp_un_sub_for_quote_rsp, rtn_for_quote_rsp,
}
use ultra_mds.Tick.{TickData, make_tick, instrument_id_size}
use ultra_mds.Queue.{SpscQueue}
use ultra_mds.Dispatcher.{Dispatcher, offer_at}
use ultra_mds.Dispatcher.Route.{IsReady, dispatch-routes}
use ultra_mds.Dispatcher.Confined.{fed, Run, then_}
use ultra_mds.Login.{Loginer}
use ultra_mds.System.{ContractContainer}
use ultra_mds.Market.{
  Api, MarketEvent, dispatched, error_msg_size, text_of, error_of, name_of, refusal, is_success,
  is_there, login_refused, all_processed, instrument_subscribed, instrument_refused, shown,
  on_front_connected, on_front_disconnected, on_rsp_user_login, on_rsp_sub_market_data,
  on_rtn_depth_market_data, call_back, session,
}

-- What the exchange's API promises of a callback: a depth record is there, and the texts that the program
-- reads end in their arrays.
abbrev HasMessage : Option RspInfo → Type 0
HasMessage none = Unit
HasMessage (some info) = length (c_string error_msg_size info.error_msg) < error_msg_size

abbrev HasName : Option SpecificInstrument → Type 0
HasName none = Unit
HasName (some specific) =
    length (c_string instrument_id_size specific.instrument_id) < instrument_id_size

abbrev pub IsProper : {W : Type 0} → Callback W → Type 0
IsProper (rsp_user_login user_login info request_id is_last) = HasMessage info
IsProper (rsp_sub_market_data specific info request_id is_last) = HasName specific × HasMessage info
IsProper {W} (rtn_depth_market_data data') =
    (field : DepthMarketData W) × (data' ≡ some field)
    × (length (c_string instrument_id_size field.instrument_id) < instrument_id_size)
IsProper _ = Unit

text_of-total : (n : ℕ) (s : Bytes) → length (c_string n s) < n → text_of n s ≡ some (c_string n s)
text_of-total n s fits = ground arith

-- Behind a promise that is kept the two responses are read without a fault.
error_of-total :
    (info : Option RspInfo) → HasMessage info → (error : RspInfo) × (error_of info ≡ some error)
error_of-total none fits = (_, refl)
error_of-total (some info) fits = (
  record info { error_msg = c_string error_msg_size info.error_msg },
  rw (text_of-total error_msg_size info.error_msg fits) refl,
)

name_of-total :
    (specific : Option SpecificInstrument)
    → HasName specific
    → (name : Bytes) × (name_of specific ≡ some name)
name_of-total none fits = ([], refl)
name_of-total (some specific) fits =
    (_, text_of-total instrument_id_size specific.instrument_id fits)

refusal-total :
    (info : Option RspInfo)
    → HasMessage info
    → (events : List MarketEvent) × (refusal info ≡ some events)
refusal-total none fits = ([], refl)
refusal-total (some info) fits = (
  login_refused info.error_id (c_string error_msg_size info.error_msg) ∷ [],
  rw (text_of-total error_msg_size info.error_msg fits) refl,
)

some_or :
    {A : Type 0} (b : Bool) {x y : Option A}
    → (a : A) × (x ≡ some a)
    → (a : A) × (y ≡ some a)
    → (a : A) × ((if b then x else y) ≡ some a)
some_or true l r = l
some_or false l r = r

on_rsp_user_login-total :
    (api : Api) (container : ContractContainer) (has : Option RspUserLogin) (info : Option RspInfo)
    → HasMessage info
    → (events : List MarketEvent) × (on_rsp_user_login api container has info ≡ some events)
unfolding on_rsp_user_login
on_rsp_user_login-total api container has info fits =
    some_or (not (is_success info)) (refusal-total info fits) (
      some_or (not (is_there has)) ([], refl)
        (some_or (length container.contracts == 0) (_, refl) (_, refl)))

on_rsp_sub_market_data-total :
    (specific : Option SpecificInstrument) (info : Option RspInfo) (request_id : ℤ) (is_last : Bool)
    → HasName specific
    → HasMessage info
    → (events : List MarketEvent) × (on_rsp_sub_market_data specific info request_id is_last
        ≡ some events)
unfolding on_rsp_sub_market_data
on_rsp_sub_market_data-total specific info request_id is_last named fits =
    let (name, is_name) = name_of-total specific named in
    let (error, is_error) = error_of-total info fits in
    let rest : List MarketEvent = if is_last then all_processed request_id ∷ [] else [] in
    elim (Bool-cases (is_success info)) [
      | inl good ↦ (
        (if length name == 0 then [] else instrument_subscribed name request_id ∷ []) ++ rest,
        rw (is_name, good) refl,
      )
      | inr bad ↦ (
        (instrument_refused (shown name) error.error_id error.error_msg request_id ∷ []) ++ rest,
        rw (is_name, bad, is_error) refl,
      )
    ]

module _ {W Q : Type 0} ⦃qs : SpscQueue (TickData W) Q⦄ {names : List Bytes} {n : ℕ}
    {d : Dispatcher} (ready : IsReady names n d) (positive : 0 < n) (loginer : Loginer)
    (container : ContractContainer) where
  -- The queues that a callback leaves, by no step of the market's thread or by one.
  abbrev Called : Api → ℤ → Callback W → List Q → Type 0
  Called api now callback queues =
      (queues' : List Q) × (events : List MarketEvent) × (call_back api now loginer container d
          callback queues
        ≡ some (queues', events))
      × ((start : List Q) → Run W d start queues → Run W d start queues')
      × (length queues' ≡ length queues)

  fed-Called :
      (api : Api) (now : ℤ) (field : DepthMarketData W) (queues : List Q)
      → length (c_string instrument_id_size field.instrument_id) < instrument_id_size
      → length queues ≡ n
      → Called api now (rtn_depth_market_data (some field)) queues
  unfolding call_back on_rtn_depth_market_data
  fed-Called api now field queues fits size =
      elim (dispatch-routes ready field now queues fits size positive) [
        | inl (_, run) ↦
            (queues, [], rw run refl, λ start steps. then_ steps (fed field now [] run), refl)
        | inr (i, q, _, _, run) ↦
            let (queues', messages) = offer_at (make_tick field (some i) now) (i % n) queues q in
            (
              queues',
              map dispatched messages,
              rw run refl,
              λ start steps. then_ steps (fed field now messages run),
              length-set queues (i % n) _,
            )
      ]

  call_back-Called :
      (api : Api) (now : ℤ) (callback : Callback W) (queues : List Q)
      → IsProper callback
      → length queues ≡ n
      → Called api now callback queues
  unfolding call_back
  call_back-Called api now front_connected queues p size =
      (queues, on_front_connected api loginer, refl, λ _ steps. steps, refl)
  call_back-Called api now (front_disconnected r) queues p size =
      (queues, on_front_disconnected r, refl, λ _ steps. steps, refl)
  call_back-Called api now (heart_beat_warning l) queues p size =
      (queues, [], refl, λ _ steps. steps, refl)
  call_back-Called api now (rsp_user_login has info r l) queues p size =
      let (events, run) = on_rsp_user_login-total api container has info p in
      (queues, events, rw run refl, λ _ steps. steps, refl)
  call_back-Called api now (rsp_error info r l) queues p size =
      (queues, [], refl, λ _ steps. steps, refl)
  call_back-Called api now (rsp_sub_market_data s info r l) queues p size =
      let (events, run) = on_rsp_sub_market_data-total s info r l p.0 p.1 in
      (queues, events, rw run refl, λ _ steps. steps, refl)
  call_back-Called api now (rsp_un_sub_market_data s info r l) queues p size =
      (queues, [], refl, λ _ steps. steps, refl)
  call_back-Called api now (rtn_depth_market_data data') queues (field, e, fits) size =
      rw e (fed-Called api now field queues fits size)
  call_back-Called api now (rsp_user_logout field info r l) queues p size =
      (queues, [], refl, λ _ steps. steps, refl)
  call_back-Called api now (rsp_qry_multicast_instrument field info r l) queues p size =
      (queues, [], refl, λ _ steps. steps, refl)
  call_back-Called api now (rsp_sub_for_quote_rsp s info r l) queues p size =
      (queues, [], refl, λ _ steps. steps, refl)
  call_back-Called api now (rsp_un_sub_for_quote_rsp s info r l) queues p size =
      (queues, [], refl, λ _ steps. steps, refl)
  call_back-Called api now (rtn_for_quote_rsp field) queues p size =
      (queues, [], refl, λ _ steps. steps, refl)

  -- A session whose callbacks keep the API's promise, on n queues, at least one, and a dispatcher that is
  -- ready for them, does not fault, and what it does to the queues is a sequence of dispatches.
  pub session-Run :
      (calls : List (Api × ℤ × Callback W)) (start queues : List Q)
      → All (λ call. IsProper call.2) calls
      → length queues ≡ n
      → Run W d start queues
      → (queues' : List Q) × (events : List MarketEvent) × (session loginer container d calls queues
          ≡ some (queues', events))
        × Run W d start queues'
        × (length queues' ≡ n)
  unfolding session
  session-Run [] start queues p size steps = (queues, [], refl, steps, size)
  session-Run ((api, now, callback) ∷ calls) start queues (p, ps) size steps =
      let (queues₁, events, run, after, size₁) = call_back-Called api now callback queues p size in
      let (queues₂, more, rest, steps₂, size₂) =
        session-Run calls start queues₁ ps (size₁ ∙ size) (after start steps) in
      (queues₂, events ++ more, rw (run, rest) refl, steps₂, size₂)
