-- ===== src/Handler/Lifecycle.antt =====
-- TickHandler.cpp, start, setThreadAffinity, stop, the destructor and the loop's condition: the owner's
-- thread and the worker's thread on one handler, and how often the queue is deleted.
pub mod Stop
pub mod Safety
use ultra_mds.Base.{
  ℕ, zero, suc, ◌+◌, ◌≡◌, Bool, true, false, not, Option, none, some, List, [], ◌∷◌, if◌then◌else◌,
}
use ultra_mds.Base.Int.{ℤ, pos, eq_ℤ}
use ultra_mds.Handler.{init_udp_multicast}

-- The worker's thread: none, or at the loop's condition, in its body, or returned and not joined yet.
pub data Worker : Type 0 where
  no_thread at_condition in_body returned : Worker

-- What the owner's thread is at: no call, or in `stop`, before the join, before the `delete`; the last is
-- the end of the destructor.
pub data Owner : Type 0 where
  no_call joining deleting destroyed : Owner

pub record TickHandler : Type 0 where
  pub my_running : Bool
  pub worker : Worker
  pub owner : Owner
  -- How often the queue has been deleted.
  pub deletions : ℕ

-- The members' initial values.
abbrev pub new_handler : TickHandler
new_handler = record { my_running = false; worker = no_thread; owner = no_call; deletions = 0 }

abbrev pub joinable : Worker → Bool
joinable no_thread = false
joinable _ = true

-- The constructor, whose member sets the socket up; `none` is its exception.
unfoldable pub construct : Bool → Bool → Option TickHandler
construct opens sets = if (init_udp_multicast opens sets).0 then some new_handler else none

-- The log lines of `setThreadAffinity`.
pub data AffinityEvent : Type 0 where
  bind_failed : ℕ → ℤ → AffinityEvent
  bound_to : ℕ → AffinityEvent

-- `ret` is the result of `pthread_setaffinity_np`; the result is false when the call throws.
unfoldable pub set_thread_affinity : ℕ → ℤ → Bool × List AffinityEvent
set_thread_affinity core_id ret =
    if eq_ℤ ret (pos 0)
    then (true, bound_to core_id ∷ [])
    else (false, bind_failed core_id ret ∷ [])

-- A call returns or throws; `terminated` is `std::terminate`, by an assignment to a joinable thread.
pub data Called : Type 0 where
  done thrown : TickHandler → Called
  terminated : Called

-- `start`, where `spawns` is whether the constructor of `std::thread` succeeds; when `setThreadAffinity`
-- throws, the thread runs already.
unfoldable pub start : Bool → ℕ → ℤ → TickHandler → Called
unfolding set_thread_affinity
start spawns core_id ret h =
    let started = record h { my_running = true; worker = at_condition } in
    if h.my_running
    then done h
    else if not spawns
    then thrown (record h { my_running = true })
    else if joinable h.worker
    then terminated
    else if (set_thread_affinity core_id ret).0
    then done started
    else thrown started

-- `stop`, up to the join.
unfoldable pub stop_signal : TickHandler → TickHandler
stop_signal h = record h { my_running = false; owner = joining }

-- `if (joinable()) join()`; `none` while the worker has not returned.
abbrev pub joined : Worker → Option Worker
joined no_thread = some no_thread
joined at_condition = none
joined in_body = none
joined returned = some no_thread

-- `delete my_queue_Tick`, after which `stop` returns to the owner's code, or the destructor ends.
unfoldable pub stop_delete : Owner → TickHandler → TickHandler
stop_delete next h = record h { deletions = h.deletions + 1; owner = next }

abbrev moved : Worker → Bool → Worker
moved no_thread running = no_thread
moved at_condition true = in_body
moved at_condition false = returned
moved in_body running = at_condition
moved returned running = returned

-- A step of the worker: it tests `my_running`, or ends a round.
unfoldable pub worker_step : TickHandler → TickHandler
worker_step h = record h { worker = moved h.worker h.my_running }

abbrev after_join : Owner → TickHandler → Option Worker → Option TickHandler
after_join next h none = none
after_join next h (some worker) = some (stop_delete next (record h { worker = worker }))

-- The whole of `stop`, with two steps of the worker before the join; `none` is to wait still.
unfoldable pub stop : Owner → TickHandler → Option TickHandler
unfolding stop_signal stop_delete worker_step
stop next h =
    let waited = worker_step (worker_step (stop_signal h)) in
    after_join next waited (joined waited.worker)

-- A handler that is started by its owner and stopped by its destructor alone.
pub data Step : TickHandler → TickHandler → Type 0 where
  starts :
      {h h' : TickHandler} (spawns : Bool) (core_id : ℕ) (ret : ℤ)
      → h.owner ≡ no_call
      → start spawns core_id ret h ≡ done h'
      → Step h h'
  start_throws :
      {h h' : TickHandler} (spawns : Bool) (core_id : ℕ) (ret : ℤ)
      → h.owner ≡ no_call
      → start spawns core_id ret h ≡ thrown h'
      → Step h h'
  signals : {h : TickHandler} → h.owner ≡ no_call → Step h (stop_signal h)
  joins :
      {h : TickHandler} (worker : Worker)
      → h.owner ≡ joining
      → joined h.worker ≡ some worker
      → Step h (record h { worker = worker; owner = deleting })
  deletes : {h : TickHandler} → h.owner ≡ deleting → Step h (stop_delete destroyed h)
  works : {h : TickHandler} → Step h (worker_step h)

pub data Reach : TickHandler → Type 0 where
  new : Reach new_handler
  later : {h h' : TickHandler} → Reach h → Step h h' → Reach h'

-- The steps from one state to another.
pub data Steps : TickHandler → TickHandler → Type 0 where
  stays : {h : TickHandler} → Steps h h
  step_first : {h h' h'' : TickHandler} → Step h h' → Steps h' h'' → Steps h h''
