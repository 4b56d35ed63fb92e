-- ===== src/Login.antt =====
-- configrelated/Loginer.h, class Loginer: the account, and the login request with its retries. The
-- API's answers are a parameter, the code that the n-th request returns.
pub mod Retry
use ultra_mds.Base.{ℕ, zero, suc, ◌+◌, ◌-◌, Bool, List, [], ◌∷◌, ◌++◌, if◌then◌else◌}
use ultra_mds.Base.Int.{ℤ, pos, negsuc, eq_ℤ}
use ultra_mds.Ctp.{ReqUserLogin}
use ultra_mds.Base.Bytes.{Bytes, c_string}

pub record Loginer : Type 0 where
  pub broker_id : Bytes
  pub user_id : Bytes
  pub password : Bytes
  pub tcp_address : Bytes

abbrev pub no_account : Loginer
no_account = record { broker_id = []; user_id = []; password = []; tcp_address = [] }

abbrev pub set_broker_id : Bytes → Loginer → Loginer
set_broker_id id l = record l { broker_id = id }

abbrev pub set_user_id : Bytes → Loginer → Loginer
set_user_id id l = record l { user_id = id }

abbrev pub set_password : Bytes → Loginer → Loginer
set_password word l = record l { password = word }

abbrev pub set_tcp_address : Bytes → Loginer → Loginer
set_tcp_address address l = record l { tcp_address = address }

abbrev pub get_tcp_address : Loginer → Bytes
get_tcp_address l = l.tcp_address

abbrev pub max_retry : ℕ
max_retry = 3

-- The sizes of the request's character arrays. `strncpy(field, text, size - 1)` into a zeroed field leaves
-- the text's first size - 1 bytes.
abbrev pub broker_id_size : ℕ
broker_id_size = 11

abbrev pub user_id_size : ℕ
user_id_size = 16

abbrev pub password_size : ℕ
password_size = 41

unfoldable pub login_request : Loginer → ReqUserLogin
login_request l = record {
  trading_day = [];
  broker_id = c_string (broker_id_size - 1) l.broker_id;
  user_id = c_string (user_id_size - 1) l.user_id;
  password = c_string (password_size - 1) l.password;
  user_product_info = [];
  interface_product_info = [];
  protocol_info = [];
  mac_address = [];
  one_time_password = [];
  reserve1 = [];
  login_remark = [];
  client_ip_port = pos 0;
  client_ip_address = [];
}

-- The `switch` on an answer that is not 0.
pub data LoginError : Type 0 where
  connection_lost too_many_pending too_fast unknown : LoginError

unfoldable pub login_error : ℤ → LoginError
login_error result =
    if eq_ℤ result (negsuc 0)
    then connection_lost
    else if eq_ℤ result (negsuc 1)
    then too_many_pending
    else if eq_ℤ result (negsuc 2)
    then too_fast
    else unknown

-- What a call does that can be seen: the requests it sends, its pauses of 200 ms and its log lines.
pub data LoginEvent : Type 0 where
  requested : ReqUserLogin → LoginEvent
  slept : LoginEvent
  sent gave_up : LoginEvent
  -- The answer, its description and the number of the retry.
  failed : ℤ → LoginError → ℕ → LoginEvent

-- The loop, with `left` retries to go and `count` made; the result is the last answer.
unfoldable pub login_loop :
    (ℕ → ℤ) → ReqUserLogin → ℕ → ℕ → ℤ → List LoginEvent → ℤ × List LoginEvent
login_loop answer req zero count result events = (result, events)
login_loop answer req (suc left) count result events =
    let result' = answer count in
    let again =
      login_loop answer req left (count + 1) result'
        (events ++ requested req ∷ failed result' (login_error result') (count + 1) ∷ slept ∷ []) in
    if eq_ℤ result' (pos 0) then (result', events ++ requested req ∷ sent ∷ []) else again

-- The log line after the loop.
unfoldable pub conclude : ℤ × List LoginEvent → ℤ × List LoginEvent
conclude (result, events) =
    if eq_ℤ result (pos 0) then (result, events) else (result, events ++ gave_up ∷ [])

unfoldable pub login : (ℕ → ℤ) → Loginer → ℤ × List LoginEvent
login answer l = conclude (login_loop answer (login_request l) max_retry 0 (negsuc 0) [])
