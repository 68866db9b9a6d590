-- ===== src/Scheduling.antt =====
-- src/scheduling_helper.hpp: the priorities that the threads ask the system for.
use amldigital_fpv.Prelude.{ℕ, ◌≡◌, Bool, false, List, ◌∷◌, if◌then◌else◌, ◌==◌, arith}
use amldigital_fpv.Prelude.Int.{ℤ, pos, negsuc, ltb_ℤ}

pub data ScheduleCall : Type 0 where
  setschedparam_fifo : ℤ → ScheduleCall
  setpriority : ℤ → ScheduleCall

-- The results of the calls are only logged.
unfoldable pub set_thread_params_max_realtime : ℤ → List ScheduleCall → List ScheduleCall
set_thread_params_max_realtime priority calls = setschedparam_fifo priority ∷ calls

unfoldable pub check_root : ℕ → Bool
check_root uid = uid == 0

-- `std::clamp`
unfoldable pub clamp : ℤ → ℤ → ℤ → ℤ
clamp v lo hi = if ltb_ℤ v lo then lo else if ltb_ℤ hi v then hi else v

unfoldable pub set_thread_params_other : ℤ → List ScheduleCall → List ScheduleCall
unfolding clamp
set_thread_params_other nice_value calls =
    setpriority (clamp nice_value (negsuc 19) (pos 19)) ∷ calls

-- The nice value that is set is one that the system knows, from -20 to 19.
clamp-in_range :
    (v : ℤ)
    → (ltb_ℤ (clamp v (negsuc 19) (pos 19)) (negsuc 19) ≡ false)
      × (ltb_ℤ (pos 19) (clamp v (negsuc 19) (pos 19)) ≡ false)
unfolding clamp
clamp-in_range v = ground arith
