-- ===== src/Dsm/Mailbox/Runs.antt =====
-- src/lib/user_mprotect.cpp: whole runs of the mailbox.
use distributed_thread_libra.Prelude.{
  ℕ, ◌≡◌, refl, ◌⊎◌, inl, inr, Bool, true, false, not, ◌&&◌, Option, none, some, List, [], ◌∷◌,
  change, arith, subst, some-injective,
}
use distributed_thread_libra.Dsm.Mailbox.{
  Request, Caller, outside, writes, waits, Responder, ready, took, carried_out, Mailbox, Event,
  produces, fills, consumes, carries_out, completes, returns, half_written, step, run, init,
}
use distributed_thread_libra.Dsm.Mailbox.Steps.{step-IsSound}
use distributed_thread_libra.Dsm.Mailbox.Laws.{
  Agrees, holding, IsSound, races, init-IsSound, agree_lem,
}

-- No step of the run reads the fields while `produce` writes them.
abbrev pub is_calm : Mailbox → List Event → Bool
is_calm s [] = true
is_calm s (e ∷ es) = not (races s e) && elim (step s e) [ none ↦ true | some t ↦ is_calm t es ]

run-IsSound :
    (s : Mailbox) (es : List Event) {t : Mailbox}
    → IsSound s
    → is_calm s es ≡ true
    → run s es ≡ some t
    → IsSound t
unfolding run
run-IsSound s [] v calm h = subst IsSound (some-injective h) v
run-IsSound s (e ∷ es) {t} v calm h = go (step s e) refl (λ u a b c. run-IsSound u es a b c) calm h
  where
    go :
        (r : Option Mailbox)
        → step s e ≡ r
        → ((u : Mailbox) → IsSound u → is_calm u es ≡ true → run u es ≡ some t → IsSound t)
        → (not (races s e) && elim r [ none ↦ true | some u ↦ is_calm u es ]) ≡ true
        → elim r [ none ↦ none | some u ↦ run u es ] ≡ some t
        → IsSound t
    go none e' ih calm h = cc
    go (some u) e' ih calm h = ih u (step-IsSound s e v (ground arith) e') (ground arith) h

-- The requests carried out are those that have returned, or one more, whose thread waits with the lock.
abbrev pub Serves : Mailbox → Type 0
Serves s =
    (s.served ≡ s.returned)
    ⊎ ((i : ℕ) × (r : Request) × (s.served ≡ r ∷ s.returned)
        × (s.holder ≡ some i)
        × (s.caller i ≡ waits r))

held_Serves :
    (s : Mailbox) (i : ℕ) (c : Caller) (p : Responder)
    → s.holder ≡ some i
    → s.caller i ≡ c
    → Agrees s (some c) p
    → Serves s
held_Serves s i (writes r) ready at_h at_c (inc, at_r, same) = inl same
held_Serves s i (writes r) (took q) at_h at_c a = absurd a
held_Serves s i (writes r) carried_out at_h at_c a = absurd a
held_Serves s i (waits r) ready at_h at_c (inl (inc, at_r, same)) = inl same
held_Serves s i (waits r) ready at_h at_c (inr (inc, same)) = inr (i, r, same, at_h, at_c)
held_Serves s i (waits r) (took q) at_h at_c (inc, at_r, same) = inl same
held_Serves s i (waits r) carried_out at_h at_c (inc, same) = inr (i, r, same, at_h, at_c)
held_Serves s i outside p at_h at_c a = absurd a

idle_Serves : (s : Mailbox) (p : Responder) → Agrees s none p → Serves s
idle_Serves s ready (inc, same) = inl same
idle_Serves s (took q) a = absurd a
idle_Serves s carried_out a = absurd a

Serves_lem : (s : Mailbox) → IsSound s → Serves s
Serves_lem s v = go s.holder refl
  where
    go : (h : Option ℕ) → s.holder ≡ h → Serves s
    go none e =
        idle_Serves s s.responder
          (subst (λ h. Agrees s (holding s.caller h) s.responder) e v.agrees)
    go (some i) e =
        held_Serves s i (s.caller i) s.responder e refl
          (agree_lem s i (s.caller i) s.responder v e refl refl)

-- Through any steps of any threads from `init` in which no `consume` falls inside a `produce`, the requests that were
-- carried out are those whose calls have returned, with the arguments of the calls, each once and in the same
-- order; or there is one more, the request of the thread that holds `mu_` and waits.
pub run-Serves :
    (q : Request) (es : List Event) {t : Mailbox}
    → is_calm (init q) es ≡ true
    → run (init q) es ≡ some t
    → Serves t
run-Serves q es {t} calm h = Serves_lem t (run-IsSound (init q) es (init-IsSound q) calm h)

-- From `init`, with any values `old` in the fields: when the responder runs inside the `produce` of a call with request
-- `r`, the call returns, and what was carried out is `r` with the last two fields of `old`.
pub run-half_written :
    (old r : Request) (i : ℕ)
    → (t : Mailbox) × (run
          (init old)
          (produces i r ∷ consumes ∷ carries_out ∷ completes ∷ fills i ∷ returns i ∷ [])
        ≡ some t)
      × (t.served ≡ half_written old r ∷ [])
      × (t.returned ≡ r ∷ [])
unfolding run step
run-half_written old r i = (
  record {
    holder = none;
    request = r;
    incomplete = false;
    caller = change (change (change (λ j. outside) i (writes r)) i (waits r)) i outside;
    responder = ready;
    served = half_written old r ∷ [];
    returned = r ∷ [];
  },
  ground arith,
  refl,
  refl,
)
