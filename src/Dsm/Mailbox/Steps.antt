-- ===== src/Dsm/Mailbox/Steps.antt =====
-- src/lib/user_mprotect.cpp: what each step of the mailbox keeps.
use distributed_thread_libra.Prelude.{
  ℕ, ◌≡◌, refl, inl, inr, Bool, true, false, Option, none, some, List, ◌∷◌, change, change_self,
  ℕ_discrete, ap, ◌∙◌, sym, subst, some-injective,
}
use distributed_thread_libra.Dsm.Mailbox.{
  wait_to_compelete, user_mprotect, compelete, step, Request, Caller, outside, writes, waits,
  Responder, ready, took, carried_out, Mailbox, Event, produces, fills, consumes, carries_out,
  completes, returns, half_written, produce, fill, consume,
}
use distributed_thread_libra.Dsm.Mailbox.Laws.{
  holder_lem, agree_lem, idle_lem, held-IsSound, others_lem, others_change, Agrees, holding,
  IsSound, is_writing, races,
}

produce-IsSound :
    (s : Mailbox) (i : ℕ) (r : Request) (c : Caller) (h : Option ℕ) (p : Responder) {t : Mailbox}
    → IsSound s
    → s.holder ≡ h
    → s.responder ≡ p
    → produce s i r c h ≡ some t
    → IsSound t
produce-IsSound s i r outside none ready v at_h at_p e = subst IsSound (some-injective e) (
    held-IsSound
      (record s {
        holder = some i;
        request = half_written s.request r;
        incomplete = true;
        caller = change s.caller i (writes r);
      })
      i (writes r) ready refl (change_self s.caller i (writes r)) at_p
      (others_change s.caller i (writes r) (others_lem s i v (inl at_h)))
      (refl, refl, (idle_lem s ready v at_h at_p).1))
produce-IsSound s i r outside none (took q) v at_h at_p e = absurd (idle_lem s (took q) v at_h at_p)
produce-IsSound s i r outside none carried_out v at_h at_p e =
    absurd (idle_lem s carried_out v at_h at_p)
produce-IsSound s i r c h p v at_h at_p e = cc

fill-IsSound :
    (s : Mailbox) (i : ℕ) (c : Caller) (p : Responder) {t : Mailbox}
    → IsSound s
    → s.caller i ≡ c
    → s.responder ≡ p
    → fill s i c ≡ some t
    → IsSound t
fill-IsSound s i (writes r) p v at_c at_p e = subst IsSound (some-injective e) (
    held-IsSound
      (record s {
        request = record s.request { read_page_flag = r.read_page_flag; page = r.page };
        caller = change s.caller i (waits r);
      })
      i (waits r) p mine (change_self s.caller i (waits r)) at_p
      (others_change s.caller i (waits r) (others_lem s i v (inr mine)))
      (filled p (agree_lem s i (writes r) p v mine at_c at_p)))
  where
    mine : s.holder ≡ some i
    mine = holder_lem s i v (λ out. cc)

    filled :
        (p : Responder)
        → Agrees s (some (writes r)) p
        → Agrees
            (record s {
              request = record s.request { read_page_flag = r.read_page_flag; page = r.page };
              caller = change s.caller i (waits r);
            })
            (some (waits r))
            p
    filled ready (inc, at_r, same) = inl (
      inc,
      ap (λ (q : Request). record q { read_page_flag = r.read_page_flag; page = r.page }) at_r,
      same,
    )
    filled (took q) a = absurd a
    filled carried_out a = absurd a
fill-IsSound s i c p v at_c at_p e = cc

-- The thread that holds the lock leaves it with its request answered.
left-IsSound :
    (s : Mailbox) (i : ℕ) (r : Request) (p : Responder)
    → IsSound s
    → s.holder ≡ some i
    → s.incomplete ≡ false
    → s.responder ≡ p
    → Agrees s (some (waits r)) p
    → IsSound
        (record s { holder = none; caller = change s.caller i outside; returned = r ∷ s.returned })
left-IsSound s i r ready v mine at_b at_p (inl (inc, at_r, rest)) = cc
left-IsSound s i r ready v mine at_b at_p (inr (inc, same)) = record {
  alone = λ j ne. elim (ℕ_discrete i j) [
    | yes e ↦ ap (change s.caller i outside) (sym e) ∙ change_self s.caller i outside
    | no other ↦ others_change s.caller i outside (others_lem s i v (inr mine)) j other
  ];
  agrees =
      subst
        (Agrees
          (record s {
            holder = none;
            caller = change s.caller i outside;
            returned = r ∷ s.returned;
          })
          none)
        (sym at_p) (inc, same);
}
left-IsSound s i r (took q) v mine at_b at_p (inc, at_r, rest) = cc
left-IsSound s i r carried_out v mine at_b at_p (inc, rest) = cc

wait-IsSound :
    (s : Mailbox) (i : ℕ) (c : Caller) (b : Bool) {t : Mailbox}
    → IsSound s
    → s.caller i ≡ c
    → s.incomplete ≡ b
    → wait_to_compelete s i c b ≡ some t
    → IsSound t
wait-IsSound s i (waits r) false v at_c at_b e =
    let mine = holder_lem s i v (λ out. cc) in
    subst IsSound (some-injective e) (
      left-IsSound s i r s.responder v mine at_b refl
        (agree_lem s i (waits r) s.responder v mine at_c refl))
wait-IsSound s i c b v at_c at_b e = cc

-- The responder moves to `p`, and writes the status and the requests served.
responder-IsSound :
    (s : Mailbox) (p : Responder) (b : Bool) (l : List Request)
    → IsSound s
    → Agrees (record s { responder = p; incomplete = b; served = l }) (holding s.caller s.holder) p
    → IsSound (record s { responder = p; incomplete = b; served = l })
responder-IsSound s p b l v a = record { alone = v.alone; agrees = a }

agrees_lem :
    (s : Mailbox) (p : Responder)
    → IsSound s
    → s.responder ≡ p
    → Agrees s (holding s.caller s.holder) p
agrees_lem s p v at_p = subst (Agrees s (holding s.caller s.holder)) at_p v.agrees

took-Agrees :
    (s : Mailbox) (c : Option Caller)
    → s.incomplete ≡ true
    → is_writing c ≡ false
    → Agrees s c ready
    → Agrees (record s { responder = took s.request }) c (took s.request)
took-Agrees s none at_b calm (inc, a) = cc
took-Agrees s (some outside) at_b calm a = absurd a
took-Agrees s (some (writes r)) at_b calm a = cc
took-Agrees s (some (waits r)) at_b calm (inl a) = a
took-Agrees s (some (waits r)) at_b calm (inr (inc, a)) = cc

carried_out-Agrees :
    (s : Mailbox) (c : Option Caller) (q : Request)
    → Agrees s c (took q)
    → Agrees (record s { responder = carried_out; served = q ∷ s.served }) c carried_out
carried_out-Agrees s (some (waits r)) q (inc, same, a) = (inc, cc)
carried_out-Agrees s none q a = absurd a
carried_out-Agrees s (some outside) q a = absurd a
carried_out-Agrees s (some (writes r)) q a = absurd a

ready-Agrees :
    (s : Mailbox) (c : Option Caller)
    → Agrees s c carried_out
    → Agrees (record s { responder = ready; incomplete = false }) c ready
ready-Agrees s (some (waits r)) (inc, a) = inr (refl, a)
ready-Agrees s none a = absurd a
ready-Agrees s (some outside) a = absurd a
ready-Agrees s (some (writes r)) a = absurd a

consume-IsSound :
    (s : Mailbox) (b : Bool) (p : Responder) {t : Mailbox}
    → IsSound s
    → s.incomplete ≡ b
    → s.responder ≡ p
    → is_writing (holding s.caller s.holder) ≡ false
    → consume s b p ≡ some t
    → IsSound t
consume-IsSound s true ready v at_b at_p calm e = subst IsSound (some-injective e) (
    responder-IsSound s (took s.request) s.incomplete s.served v
      (took-Agrees s (holding s.caller s.holder) at_b calm (agrees_lem s ready v at_p)))
consume-IsSound s b p v at_b at_p calm e = cc

user_mprotect-IsSound :
    (s : Mailbox) (p : Responder) {t : Mailbox}
    → IsSound s
    → s.responder ≡ p
    → user_mprotect s p ≡ some t
    → IsSound t
user_mprotect-IsSound s (took q) v at_p e = subst IsSound (some-injective e) (
    responder-IsSound s carried_out s.incomplete (q ∷ s.served) v
      (carried_out-Agrees s (holding s.caller s.holder) q (agrees_lem s (took q) v at_p)))
user_mprotect-IsSound s p v at_p e = cc

compelete-IsSound :
    (s : Mailbox) (p : Responder) {t : Mailbox}
    → IsSound s
    → s.responder ≡ p
    → compelete s p ≡ some t
    → IsSound t
compelete-IsSound s carried_out v at_p e = subst IsSound (some-injective e) (
    responder-IsSound s ready false s.served v
      (ready-Agrees s (holding s.caller s.holder) (agrees_lem s carried_out v at_p)))
compelete-IsSound s p v at_p e = cc

pub step-IsSound :
    (s : Mailbox) (e : Event) {t : Mailbox}
    → IsSound s
    → races s e ≡ false
    → step s e ≡ some t
    → IsSound t
unfolding step
step-IsSound s (produces i r) v calm h =
    produce-IsSound s i r (s.caller i) s.holder s.responder v refl refl h
step-IsSound s (fills i) v calm h = fill-IsSound s i (s.caller i) s.responder v refl refl h
step-IsSound s consumes v calm h = consume-IsSound s s.incomplete s.responder v refl refl calm h
step-IsSound s carries_out v calm h = user_mprotect-IsSound s s.responder v refl h
step-IsSound s completes v calm h = compelete-IsSound s s.responder v refl h
step-IsSound s (returns i) v calm h = wait-IsSound s i (s.caller i) s.incomplete v refl refl h
