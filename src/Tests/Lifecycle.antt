-- ===== src/Tests/Lifecycle.antt =====
-- A handler that is started, stopped and destroyed.
use ultra_mds.Base.{◌+◌, ◌≡◌, ◌≢◌, ◌⊎◌, refl, true, false, some, ◌>>=◌}
use ultra_mds.Base.Int.{pos}
use ultra_mds.Handler.Lifecycle.{
  at_condition, no_thread, no_call, destroyed, TickHandler, new_handler, start, stop, stop_signal,
  worker_step, stop_delete, starts, signals, joins, deletes, works, Reach, new, later, Steps,
}
use ultra_mds.Handler.Lifecycle.Safety.{Reach-deletions}
use ultra_mds.Handler.Lifecycle.Stop.{stop_ends, stop_twice}

abbrev running : TickHandler
running = record new_handler { my_running = true; worker = at_condition }

is_running : Reach running
unfolding start
is_running = later new (starts true 3 (pos 0) refl refl)

abbrev deleted : TickHandler
deleted = record { my_running = false; worker = no_thread; owner = destroyed; deletions = 1 }

is_deleted : Reach deleted
unfolding stop_signal worker_step stop_delete
is_deleted =
    later (later (later (later is_running (signals refl)) works) (joins no_thread refl refl))
      (deletes refl)

Reach-deletions_example :
    (((deleted.owner ≢ destroyed) × (deleted.deletions ≡ 0))
      ⊎ ((deleted.owner ≡ destroyed) × (deleted.deletions ≡ 1) × (deleted.worker ≡ no_thread)))
    × ((h : TickHandler) × Steps deleted h × (h.owner ≡ destroyed))
Reach-deletions_example = Reach-deletions is_deleted

stop_ends_example :
    (h : TickHandler) × (stop no_call running ≡ some h)
    × (h.deletions ≡ running.deletions + 1)
    × (h.worker ≡ no_thread)
    × (h.my_running ≡ false)
stop_ends_example = stop_ends no_call running

stop_twice_example :
    (h : TickHandler) × (stop no_call running >>= stop destroyed ≡ some h)
    × (h.deletions ≡ running.deletions + 2)
stop_twice_example = stop_twice no_call destroyed running
