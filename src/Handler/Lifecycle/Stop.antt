-- ===== src/Handler/Lifecycle/Stop.antt =====
-- One call of `stop`, and two.
use ultra_mds.Base.{ℕ, ◌+◌, ◌≡◌, refl, Bool, false, some, ◌>>=◌, arith}
use ultra_mds.Handler.Lifecycle.{
  Worker, no_thread, at_condition, in_body, returned, Owner, TickHandler, stop_signal, stop_delete,
  worker_step, stop,
}

ran :
    (next : Owner) (worker : Worker) (running : Bool) (owner : Owner) (n : ℕ)
    → stop next (record { my_running = running; worker = worker; owner = owner; deletions = n })
      ≡ some (record { my_running = false; worker = no_thread; owner = next; deletions = n + 1 })
unfolding stop stop_signal stop_delete worker_step
ran next no_thread running owner n = refl
ran next at_condition running owner n = refl
ran next in_body running owner n = refl
ran next returned running owner n = refl

-- `stop` ends, wherever the worker is: after two steps of it the thread can be joined. It leaves no
-- thread, and deletes the queue, once more than before.
pub stop_ends :
    (next : Owner) (h : TickHandler)
    → (h' : TickHandler) × (stop next h ≡ some h')
      × (h'.deletions ≡ h.deletions + 1)
      × (h'.worker ≡ no_thread)
      × (h'.my_running ≡ false)
stop_ends next h = (
  record { my_running = false; worker = no_thread; owner = next; deletions = h.deletions + 1 },
  ran next h.worker h.my_running h.owner h.deletions,
  refl,
  refl,
  refl,
)

-- A handler that is stopped twice, as by a call and then by the destructor, deletes its queue twice.
pub stop_twice :
    (first second : Owner) (h : TickHandler)
    → (h' : TickHandler) × (stop first h >>= stop second ≡ some h')
      × (h'.deletions ≡ h.deletions + 2)
stop_twice first second h =
    let (h₁, run₁, n₁, _, _) = stop_ends first h in
    let (h₂, run₂, n₂, _, _) = stop_ends second h₁ in (h₂, rw run₁ run₂, omega (arith, n₁, n₂))
