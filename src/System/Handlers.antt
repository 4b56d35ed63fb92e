-- ===== src/System/Handlers.antt =====
-- When the handlers of the start can be made and started.
use ultra_mds.Base.{ℕ, ◌≡◌, refl, true, List, [], ◌∷◌, some, All, >>=-eq-some, arith}
use ultra_mds.Base.Int.{pos}
use ultra_mds.Handler.{init_udp_multicast}
use ultra_mds.Handler.Lifecycle.{
  TickHandler, new_handler, at_condition, construct, start, set_thread_affinity,
}
use ultra_mds.System.{Host, get_biz_core_id, start_handler, start_handlers}

-- The i-th handler's socket is opened and takes its option, its thread is made, and is bound to its core.
pub record CanRun (host : Host) (cpu_count i : ℕ) : Type 0 where
  pub opens : host.opens i ≡ true
  pub sets : host.sets i ≡ true
  pub spawns : host.spawns i ≡ true
  pub bound : host.set_affinity i (get_biz_core_id i cpu_count) ≡ pos 0

module _ (host : Host) (cpu_count : ℕ) where
  start_handler-CanRun :
      (i : ℕ) (h : TickHandler) → start_handler host cpu_count i ≡ some h → CanRun host cpu_count i
  unfolding start_handler construct init_udp_multicast start set_thread_affinity
  start_handler-CanRun i h e = ground arith

  CanRun-start_handler :
      (i : ℕ)
      → CanRun host cpu_count i
      → (h : TickHandler) × (start_handler host cpu_count i ≡ some h)
  unfolding start_handler construct init_udp_multicast start set_thread_affinity
  CanRun-start_handler i c = (
    record new_handler { my_running = true; worker = at_condition },
    rw (c.opens, c.sets, c.spawns, c.bound) refl,
  )

  pub start_handlers-CanRun :
      (threads : List ℕ) (hs : List TickHandler)
      → start_handlers host cpu_count threads ≡ some hs
      → All (CanRun host cpu_count) threads
  unfolding start_handlers
  start_handlers-CanRun [] hs e = tt
  start_handlers-CanRun (i ∷ threads) hs e =
      let (h, first, e₁) = >>=-eq-some (start_handler host cpu_count i) _ e in
      let (rest, others, _) = >>=-eq-some (start_handlers host cpu_count threads) _ e₁ in
      (start_handler-CanRun i h first, start_handlers-CanRun threads rest others)

  pub CanRun-start_handlers :
      (threads : List ℕ)
      → All (CanRun host cpu_count) threads
      → (hs : List TickHandler) × (start_handlers host cpu_count threads ≡ some hs)
  unfolding start_handlers
  CanRun-start_handlers [] _ = ([], refl)
  CanRun-start_handlers (i ∷ threads) (c, cs) =
      let (h, first) = CanRun-start_handler i c in
      let (hs, others) = CanRun-start_handlers threads cs in (h ∷ hs, rw (first, others) refl)
