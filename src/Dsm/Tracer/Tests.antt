-- ===== src/Dsm/Tracer/Tests.antt =====
-- Runs of `user_mprotect`.
use distributed_thread_libra.Prelude.{ℕ, ◌≡◌, refl, inr, true, false, Option, some, [], ◌∷◌, length}
use distributed_thread_libra.Dsm.Tracer.{
  Call, sigusr1, sigusr2, own, Process, faults, comes_before, returned, user_mprotect,
}
use distributed_thread_libra.Dsm.Tracer.Laws.{protected, user_mprotect_lem, user_mprotect-lost}

abbrev stopped : Process
stopped = record { regs = own 42; calls = []; sent = [] }

abbrev open_page : Call
open_page = record { addr = 8192; size = 4096; prot = 3 }

-- The page holds the number of the calls made so far.
abbrev counting : Process → ℕ → Option ℕ
counting p a = some (length p.calls)

user_mprotect_lem_example :
    user_mprotect counting stopped open_page true 7 (comes_before sigusr2) faults
    ≡ returned (protected stopped open_page (comes_before sigusr2)) 1
user_mprotect_lem_example =
    user_mprotect_lem counting stopped open_page 7 (comes_before sigusr2) true 1 (inr refl) refl

user_mprotect-lost_example :
    user_mprotect counting stopped open_page false 7 (comes_before sigusr2) (comes_before sigusr1)
    ≡ returned (record { regs = own 42; calls = []; sent = sigusr2 ∷ [] }) 7
user_mprotect-lost_example =
    user_mprotect-lost counting stopped open_page 7 sigusr2 sigusr1 refl refl
