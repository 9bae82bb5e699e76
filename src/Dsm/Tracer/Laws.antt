-- ===== src/Dsm/Tracer/Laws.antt =====
-- src/lib/user_mprotect.cpp: what `user_mprotect` does to the traced process, by the signals that come.
use distributed_thread_libra.Prelude.{
  ℕ, ◌≡◌, refl, ◌⊎◌, inl, inr, Bool, true, false, not, Option, none, some, List, ◌∷◌, if◌then◌else◌,
  ap, ◌∙◌,
}
use distributed_thread_libra.Dsm.Tracer.{
  Call, Signal, sigsegv, sigusr1, sigusr2, other_signal, injection, Process, Stop, faults,
  comes_before, comes_behind, cont, set_regs, kill, is_sigsegv, inject, returned, exited,
  remote_mempage_read, user_mprotect,
}

-- A signal from outside, not the end of the injection.
abbrev pub foreign : Stop → Bool
foreign faults = false
foreign (comes_before s) = not (is_sigsegv s)
foreign (comes_behind s) = not (is_sigsegv s)

-- Behind the system call.
abbrev pub reaches : Stop → Bool
reaches (comes_before s) = false
reaches _ = true

-- The signals that are sent again.
abbrev pub sent_again : Stop → List Signal → List Signal
sent_again faults l = l
sent_again (comes_before s) l = s ∷ l
sent_again (comes_behind s) l = s ∷ l

-- What `user_mprotect` is to do: the call, with all else as it was but for the signals sent again.
abbrev pub protected : Process → Call → (first : Stop) → Process
protected p c first = record p { calls = c ∷ p.calls; sent = sent_again first p.sent }

inject-at_end :
    (p : Process) (c : Call) (first : Stop)
    → (first ≡ faults) ⊎ (foreign first ≡ true)
    → set_regs (inject p c first faults) p.regs ≡ protected p c first
unfolding inject cont
inject-at_end p c faults h = refl
inject-at_end p c (comes_before sigsegv) h = elim h [ inl e ↦ cc | inr e ↦ cc ]
inject-at_end p c (comes_before sigusr1) h = refl
inject-at_end p c (comes_before sigusr2) h = refl
inject-at_end p c (comes_before other_signal) h = refl
inject-at_end p c (comes_behind sigsegv) h = elim h [ inl e ↦ cc | inr e ↦ cc ]
inject-at_end p c (comes_behind sigusr1) h = refl
inject-at_end p c (comes_behind sigusr2) h = refl
inject-at_end p c (comes_behind other_signal) h = refl

module _ (process_vm_readv : Process → ℕ → Option ℕ) (p : Process) (c : Call) (page : ℕ) where
  -- When at most one signal comes from outside before the injected code is through, and the page can be read
  -- where it is asked for, `user_mprotect` makes the process call mprotect once with the arguments given,
  -- restores its registers, sends the signal again, and reads the page as the process has it then.
  pub user_mprotect_lem :
      (first : Stop) (flag : Bool) (content : ℕ)
      → (first ≡ faults) ⊎ (foreign first ≡ true)
      → process_vm_readv (protected p c first) c.addr ≡ some content
      → user_mprotect process_vm_readv p c flag page first faults
        ≡ returned (protected p c first) (if flag then content else page)
  unfolding user_mprotect
  user_mprotect_lem first true content h readable =
      ap (λ q. remote_mempage_read process_vm_readv q c.addr) (inject-at_end p c first h)
      ∙ ap (λ o. elim o [ none ↦ exited | some x ↦ returned (protected p c first) x ]) readable
  user_mprotect_lem first false content h readable =
      ap (λ q. returned q page) (inject-at_end p c first h)

  -- When two signals come from outside before the system call, `user_mprotect` with no page to read returns all the
  -- same; mprotect was not called, the first signal is sent again and the second is not.
  pub user_mprotect-lost :
      (a b : Signal)
      → is_sigsegv a ≡ false
      → is_sigsegv b ≡ false
      → user_mprotect process_vm_readv p c false page (comes_before a) (comes_before b)
        ≡ returned (record p { sent = a ∷ p.sent }) page
  unfolding user_mprotect inject cont
  user_mprotect-lost a b fa fb = ap (λ q. returned (set_regs q p.regs) page) not_called
    where
      q : Process
      q = set_regs p (injection c)

      not_called : (if is_sigsegv a then q else kill q a) ≡ kill q a
      not_called = ap (λ t. if t then q else kill q a) fa
