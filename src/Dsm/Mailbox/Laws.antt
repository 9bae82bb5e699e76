-- ===== src/Dsm/Mailbox/Laws.antt =====
-- src/lib/user_mprotect.cpp: the requests that are carried out, against those that were made.
use distributed_thread_libra.Prelude.{
  ℕ, ◌≡◌, ◌≢◌, refl, ◌⊎◌, inl, inr, Bool, true, false, Option, none, some, ◌∷◌, change, change_ne,
  ℕ_discrete, ap, ◌∙◌, sym, subst, some-injective,
}
use distributed_thread_libra.Dsm.Mailbox.{
  init, Request, Caller, outside, writes, waits, Responder, ready, took, carried_out, Mailbox,
  Event, consumes, half_written,
}

-- What the thread that holds the lock and the responder agree on.
abbrev pub Agrees : Mailbox → Option Caller → Responder → Type 0
Agrees s none ready = (s.incomplete ≡ false) × (s.served ≡ s.returned)
Agrees s (some (writes r)) ready =
    (s.incomplete ≡ true) × (s.request ≡ half_written s.request r) × (s.served ≡ s.returned)
Agrees s (some (waits r)) ready =
    ((s.incomplete ≡ true) × (s.request ≡ r) × (s.served ≡ s.returned))
    ⊎ ((s.incomplete ≡ false) × (s.served ≡ r ∷ s.returned))
Agrees s (some (waits r)) (took q) = (s.incomplete ≡ true) × (q ≡ r) × (s.served ≡ s.returned)
Agrees s (some (waits r)) carried_out = (s.incomplete ≡ true) × (s.served ≡ r ∷ s.returned)
Agrees s c r = ⊥

abbrev pub holding : (ℕ → Caller) → Option ℕ → Option Caller
holding f none = none
holding f (some i) = some (f i)

pub record IsSound (s : Mailbox) : Type 0 where
  pub alone : (i : ℕ) → s.holder ≢ some i → s.caller i ≡ outside
  pub agrees : Agrees s (holding s.caller s.holder) s.responder

-- The responder reads the fields while `produce` still writes them.
abbrev pub is_writing : Option Caller → Bool
is_writing (some (writes r)) = true
is_writing _ = false

abbrev pub races : Mailbox → Event → Bool
races s consumes = is_writing (holding s.caller s.holder)
races s e = false

pub init-IsSound : (r : Request) → IsSound (init r)
init-IsSound r = record { alone = λ i ne. refl; agrees = (refl, refl) }

-- A thread in `user_mprotect_req` is the one that holds the lock.
pub holder_lem : (s : Mailbox) (i : ℕ) → IsSound s → s.caller i ≢ outside → s.holder ≡ some i
holder_lem s i v inside = go s.holder refl
  where
    go : (h : Option ℕ) → s.holder ≡ h → s.holder ≡ some i
    go none e = absurd (inside (v.alone i (λ e'. cc)))
    go (some j) e = elim (ℕ_discrete j i) [
      | yes same ↦ rw same at e
      | no other ↦ absurd (inside (v.alone i (λ e'. other (some-injective (sym e ∙ e')))))
    ]

pub agree_lem :
    (s : Mailbox) (i : ℕ) (c : Caller) (p : Responder)
    → IsSound s
    → s.holder ≡ some i
    → s.caller i ≡ c
    → s.responder ≡ p
    → Agrees s (some c) p
agree_lem s i c p v at_h at_c at_p = subst (Agrees s (some c)) at_p (
    subst (λ x. Agrees s (some x) s.responder) at_c
      (subst (λ h. Agrees s (holding s.caller h) s.responder) at_h v.agrees))

pub idle_lem :
    (s : Mailbox) (p : Responder) → IsSound s → s.holder ≡ none → s.responder ≡ p → Agrees s none p
idle_lem s p v at_h at_p =
    subst (Agrees s none) at_p
      (subst (λ h. Agrees s (holding s.caller h) s.responder) at_h v.agrees)

-- Thread `i` holds the lock and stands at `c`, all others outside.
pub held-IsSound :
    (s : Mailbox) (i : ℕ) (c : Caller) (p : Responder)
    → s.holder ≡ some i
    → s.caller i ≡ c
    → s.responder ≡ p
    → ((j : ℕ) → i ≢ j → s.caller j ≡ outside)
    → Agrees s (some c) p
    → IsSound s
held-IsSound s i c p at_h at_c at_p others a = record {
  alone = λ j ne. others j (λ same. ne (at_h ∙ ap some same));
  agrees =
      subst (λ h. Agrees s (holding s.caller h) s.responder) (sym at_h)
        (subst (λ x. Agrees s (some x) s.responder) (sym at_c)
          (subst (Agrees s (some c)) (sym at_p) a));
}

pub others_lem :
    (s : Mailbox) (i : ℕ)
    → IsSound s
    → (s.holder ≡ none) ⊎ (s.holder ≡ some i)
    → (j : ℕ) → i ≢ j
    → s.caller j ≡ outside
others_lem s i v (inl free) j ne = v.alone j (λ e. cc)
others_lem s i v (inr mine) j ne = v.alone j (λ e. ne (some-injective (sym mine ∙ e)))

pub others_change :
    (f : ℕ → Caller) (i : ℕ) (c : Caller)
    → ((j : ℕ) → i ≢ j → f j ≡ outside)
    → (j : ℕ) → i ≢ j
    → change f i c j ≡ outside
others_change f i c others j ne = change_ne f i c j ne ∙ others j ne
