-- ===== src/System/Cores.antt =====
-- The number of handlers and the cores that they are bound to.
use native.Mathlib.Nat.{mod-eq_of_lt}
use ultra_mds.Base.{ℕ, zero, suc, ◌<◌, ◌≤◌, ◌≡◌, ◌↔◌, max, arith}
use ultra_mds.System.{get_biz_core_id, thread_num_of}

pub thread_num_of-bounds :
    (cpu_count contract_num : ℕ)
    → 0 < cpu_count
    → let n = thread_num_of cpu_count contract_num in
      (0 < n) × (n ≤ cpu_count) × (n ≤ max 1 contract_num)
unfolding thread_num_of
thread_num_of-bounds cpu_count contract_num h = ground arith

get_biz_core_id_lem :
    (i cpu_count : ℕ) → 0 < cpu_count → i < cpu_count → get_biz_core_id i cpu_count ≡ i
unfolding get_biz_core_id
get_biz_core_id_lem i zero h k = absurd (omega arith)
get_biz_core_id_lem i (suc zero) h k = omega arith
get_biz_core_id_lem i (suc (suc n)) h k = mod-eq_of_lt k

-- On a machine with a core or more, each handler is bound to a core that exists, and two handlers to
-- two cores.
pub get_biz_core_id-distinct :
    (cpu_count contract_num i j : ℕ)
    → 0 < cpu_count
    → i < thread_num_of cpu_count contract_num
    → j < thread_num_of cpu_count contract_num
    → (get_biz_core_id i cpu_count < cpu_count)
      × ((get_biz_core_id i cpu_count ≡ get_biz_core_id j cpu_count) ↔ (i ≡ j))
get_biz_core_id-distinct cpu_count contract_num i j h hi hj =
    let (_, few, _) = thread_num_of-bounds cpu_count contract_num h in
    rw
      (
        get_biz_core_id_lem i cpu_count h (omega arith),
        get_biz_core_id_lem j cpu_count h (omega arith),
      )
      (omega arith, (λ e. e, λ e. e))
