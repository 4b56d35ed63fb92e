-- ===== src/Handler/Lifecycle/Safety.antt =====
-- A handler whose `stop` is called by the destructor alone.
use ultra_mds.Base.{ℕ, ◌≡◌, ◌≢◌, ◌⊎◌, refl, Bool, true, false, arith}
use ultra_mds.Base.Int.{ℤ}
use ultra_mds.Handler.Lifecycle.{
  Worker, no_thread, at_condition, in_body, returned, Owner, no_call, joining, deleting, destroyed,
  TickHandler, terminated, start, set_thread_affinity, stop_signal, stop_delete, worker_step, Step,
  starts, start_throws, signals, joins, deletes, works, Reach, new, later, Steps, stays, step_first,
}

-- By the phase of the owner: the queue is there until the destructor has deleted it, a thread is there
-- only if it was started and not joined, and only before the deletion.
abbrev OfOwner : Owner → Worker → Bool → ℕ → Type 0
OfOwner no_call no_thread running n = n ≡ 0
OfOwner no_call _ running n = (running ≡ true) × (n ≡ 0)
OfOwner joining _ running n = (running ≡ false) × (n ≡ 0)
OfOwner deleting w running n = (w ≡ no_thread) × (n ≡ 0)
OfOwner destroyed w running n = (w ≡ no_thread) × (n ≡ 1)

abbrev IsSound : TickHandler → Type 0
IsSound h = OfOwner h.owner h.worker h.my_running h.deletions

Step-IsSound : {h h' : TickHandler} → Step h h' → IsSound h → IsSound h'
unfolding start set_thread_affinity stop_signal stop_delete worker_step
Step-IsSound (starts {h = h} spawns core_id ret e f) s = ground arith
Step-IsSound (start_throws {h = h} spawns core_id ret e f) s = ground arith
Step-IsSound (signals {h = h} e) s = ground arith
Step-IsSound (joins {h = h} worker e f) s = ground arith
Step-IsSound (deletes {h = h} e) s = ground arith
Step-IsSound (works {h = h}) s = ground arith

Reach-IsSound : {h : TickHandler} → Reach h → IsSound h
Reach-IsSound new = refl
Reach-IsSound (later run step) = Step-IsSound step (Reach-IsSound run)

-- Whatever the owner's and the worker's positions, the destructor can be led to its end.
joining_ends :
    (w : Worker) (running : Bool) (n : ℕ)
    → running ≡ false
    → (h : TickHandler) × Steps
        (record { my_running = running; worker = w; owner = joining; deletions = n })
        h
      × (h.owner ≡ destroyed)
unfolding worker_step stop_delete
joining_ends w true n e = absurd (cc e)
joining_ends no_thread false n e =
    (_, step_first (joins no_thread refl refl) (step_first (deletes refl) stays), refl)
joining_ends at_condition false n e = (
  _,
  step_first works (step_first (joins no_thread refl refl) (step_first (deletes refl) stays)),
  refl,
)
joining_ends in_body false n e = (
  _,
  step_first works
      (step_first works (step_first (joins no_thread refl refl) (step_first (deletes refl) stays))),
  refl,
)
joining_ends returned false n e =
    (_, step_first (joins no_thread refl refl) (step_first (deletes refl) stays), refl)

destructor_ends :
    (w : Worker) (running : Bool) (owner : Owner) (n : ℕ)
    → OfOwner owner w running n
    → (h : TickHandler) × Steps
        (record { my_running = running; worker = w; owner = owner; deletions = n })
        h
      × (h.owner ≡ destroyed)
unfolding stop_signal stop_delete
destructor_ends w running no_call n s =
    let (h, more, e) = joining_ends w false n refl in (h, step_first (signals refl) more, e)
destructor_ends w running joining n s = joining_ends w running n s.0
destructor_ends w running deleting n s = (_, step_first (deletes refl) stays, refl)
destructor_ends w running destroyed n s = (_, stays, refl)

-- If the destructor alone calls `stop`, then in every interleaving of the owner and the worker the queue
-- is not deleted before the destructor's end, and at its end it has been deleted once, and no thread that
-- might use it is left. From every state on the way steps lead to the destructor's end.
pub Reach-deletions :
    {h : TickHandler}
    → Reach h
    → (((h.owner ≢ destroyed) × (h.deletions ≡ 0))
        ⊎ ((h.owner ≡ destroyed) × (h.deletions ≡ 1) × (h.worker ≡ no_thread)))
      × ((h' : TickHandler) × Steps h h' × (h'.owner ≡ destroyed))
Reach-deletions {h} run = (
  ground (arith, Reach-IsSound run),
  destructor_ends h.worker h.my_running h.owner h.deletions (Reach-IsSound run),
)

-- In such a run a call of `start` never assigns to a thread that can be joined.
pub Reach-start :
    {h : TickHandler} (spawns : Bool) (core_id : ℕ) (ret : ℤ)
    → Reach h
    → h.owner ≡ no_call
    → start spawns core_id ret h ≢ terminated
unfolding start set_thread_affinity
Reach-start {h} spawns core_id ret run e = ground (arith, Reach-IsSound run)
