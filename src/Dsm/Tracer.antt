-- ===== src/Dsm/Tracer.antt =====
-- src/lib/user_mprotect.cpp: `user_mprotect`, by which the tracing thread makes the traced process, which stands still
-- at a signal, call mprotect. It runs `injection` of src/lib/injection.s there, a system call and then a read
-- of address 0. Other signals may stop the process in between.
pub mod Laws
mod Tests
use distributed_thread_libra.Prelude.{
  ℕ, Bool, true, false, Option, none, some, List, [], ◌∷◌, if◌then◌else◌,
}

-- A call of mprotect.
pub record Call : Type 0 where
  pub addr : ℕ
  pub size : ℕ
  pub prot : ℕ

pub data Signal : Type 0 where
  sigsegv sigusr1 sigusr2 other_signal : Signal

-- The general and the floating-point registers: those of the program, or those set for `injection`, before and
-- behind its system call.
pub data Regs : Type 0 where
  own : ℕ → Regs
  injection : Call → Regs
  behind : Call → Regs

-- The last call stands first in `calls`, and the last signal that the tracing thread sent in `sent`.
pub record Process : Type 0 where
  pub regs : Regs
  pub calls : List Call
  pub sent : List Signal

-- What stops the process after PTRACE_CONT: the read of address 0, or a signal that comes before or behind the
-- system call.
pub data Stop : Type 0 where
  faults : Stop
  comes_before : Signal → Stop
  comes_behind : Signal → Stop

abbrev pub call_from : Process → Regs → Process
call_from p (injection c) = record p { regs = behind c; calls = c ∷ p.calls }
call_from p r = p

-- PTRACE_CONT and `wait`, with the signal that PTRACE_GETSIGINFO tells.
unfoldable pub cont : Process → Stop → Process × Signal
cont p faults = (call_from p p.regs, sigsegv)
cont p (comes_before s) = (p, s)
cont p (comes_behind s) = (call_from p p.regs, s)

abbrev pub set_regs : Process → Regs → Process
set_regs p r = record p { regs = r }

abbrev pub kill : Process → Signal → Process
kill p s = record p { sent = s ∷ p.sent }

abbrev pub is_sigsegv : Signal → Bool
is_sigsegv sigsegv = true
is_sigsegv _ = false

-- `user_mprotect` up to the registers of the injection, and the wait for its end.
unfoldable pub inject : Process → Call → (first second : Stop) → Process
unfolding cont
inject p c first second =
    let (q, sig) = cont (set_regs p (injection c)) first in
    if is_sigsegv sig then q else kill (cont q second).0 sig

pub data Result : Type 0 where
  returned : Process → (page : ℕ) → Result
  exited : Result  -- `exit(-1)`

-- `remote_mempage_read`, with `process_vm_readv`; `none` is its -1.
abbrev pub remote_mempage_read :
    (process_vm_readv : Process → ℕ → Option ℕ) → Process → (remote : ℕ) → Result
remote_mempage_read process_vm_readv p remote = elim (process_vm_readv p remote) [
  | none ↦ exited
  | some c ↦ returned p c
]

-- `user_mprotect`; `page` is what the buffer holds.
unfoldable pub user_mprotect :
    (process_vm_readv : Process → ℕ → Option ℕ)
    → Process
    → Call
    → (read_page_flag : Bool) → (page : ℕ) → (first second : Stop) → Result
unfolding inject
user_mprotect process_vm_readv p c read_page_flag page first second =
    let q = set_regs (inject p c first second) p.regs in
    if read_page_flag then remote_mempage_read process_vm_readv q c.addr else returned q page
