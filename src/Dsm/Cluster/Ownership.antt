-- ===== src/Dsm/Cluster/Ownership.antt =====
-- src/lib/dsm_node.cpp: the events of a cluster and the rights to write, with the race of
-- `response_write` and `update_prot` left out.
use distributed_thread_libra.Prelude.{
  ℕ, ◌<◌, ◌≤◌, ◌≡◌, refl, Bool, false, not, ◌&&◌, Option, some, List, ◌==◌, change, arith, subst,
}
use distributed_thread_libra.Dsm.Node.{Node, Phase, asking, Request, sent, dsm_prot_read}
use distributed_thread_libra.Dsm.Cluster.{
  Cluster, Event, stores, syncs, faults, tests, updates, answers, copies, receives, ends, thread,
  actor, act,
}
use distributed_thread_libra.Dsm.Cluster.Weights.{tokens, IsSound}
use distributed_thread_libra.Dsm.Cluster.Handlers.{
  Keeps, is_updating, weight-cong, handler_lem, sync_lem, update_prot_test_lem, update_prot_set_lem,
  grant_prot_end_lem,
}
use distributed_thread_libra.Dsm.Cluster.Moves.{Inv, SameTokens, KeepLent, Keeps-change}
use distributed_thread_libra.Dsm.Cluster.Answers.{
  answer_read_lem, answer_write_lem, copy_lem, receive_lem,
}
use distributed_thread_libra.Dsm.Cluster.Cases.{Obliges, act-cases}

-- A request to write reaches a node whose handler stands inside `update_prot` for the page.
abbrev pub races_with : Cluster → (page prot : ℕ) → Request → Bool
races_with s p prot (sent j) = not (prot == dsm_prot_read) && is_updating (s j).phase p
races_with s p prot _ = false

abbrev pub races_in : Cluster → ℕ → Phase → Bool
races_in s k (asking p prot rs d) = races_with s p prot (thread rs k)
races_in s k _ = false

abbrev pub races : Cluster → Event → Bool
races s (answers i k) = races_in s k (s i).phase
races s _ = false

abbrev pub Good : ℕ → Cluster → Cluster → Type 0
Good n s t = Inv n t × SameTokens n s t × KeepLent n s t

module _ (n : ℕ) (s : Cluster) (inv : Inv n s) (i : ℕ) (hi : i < n) where
  keep : (m : Node) → Keeps (s i) m → Good n s (change s i m)
  keep m k = Keeps-change n s inv i hi m k

  sound : {ph : Phase} → (s i).phase ≡ ph → IsSound (s i).page_info ph
  sound e = subst (IsSound (s i).page_info) e (inv i hi)

module _ (n : ℕ) (s : Cluster) (inv : Inv n s) (few : (q : ℕ) → tokens n q s ≤ 1) where
  -- What each event keeps.
  obliged : (e : Event) → actor e < n → races s e ≡ false → Obliges n s (Good n s) e
  obliged (stores i p c) hi calm = λ e l w.
      keep n s inv i hi _
        (λ q. weight-cong q (s i) _ refl refl, sound n s inv i hi refl, λ q. (λ j g. g, λ h'. h'))
  obliged (syncs i total) hi calm = λ e. keep n s inv i hi _ (sync_lem (s i) total e)
  obliged (faults i p w) hi calm = λ e l. keep n s inv i hi _ (handler_lem (s i) p e l)
  obliged (tests i) hi calm =
      λ p e. keep n s inv i hi _ (update_prot_test_lem (s i) p e (sound n s inv i hi e))
  obliged (updates i) hi calm = λ p e.
      let (l, o) = sound n s inv i hi e in keep n s inv i hi _ (update_prot_set_lem (s i) p e l o)
  obliged (answers i k) hi calm = λ p prot rs d j e q hj. (
    λ read. answer_read_lem n s inv i j hi hj k e q read,
    λ write. answer_write_lem n s inv i j hi hj k e q write (no_race e q write calm),
  )
    where
      no_race :
          {p prot j : ℕ} {rs : List Request} {d : Option ℕ}
          → (s i).phase ≡ asking p prot rs d
          → thread rs k ≡ sent j
          → (prot == dsm_prot_read) ≡ false
          → races_in s k (s i).phase ≡ false
          → is_updating (s j).phase p ≡ false
      no_race e q write calm = ground arith
  obliged (copies i k) hi calm = λ p prot rs d j e q hj. copy_lem n s inv i j hi hj k e q
  obliged (receives i k) hi calm = λ p prot rs d r e q. receive_lem n s inv i hi k e r q few
  obliged (ends i) hi calm = λ p prot rs d e joined.
      let (l, o) = sound n s inv i hi e in
      keep n s inv i hi _ (grant_prot_end_lem (s i) p prot rs d e l o joined)

  pub act-Good :
      (e : Event) {t : Cluster} → actor e < n → races s e ≡ false → act n s e ≡ some t → Good n s t
  act-Good e hi calm h = act-cases n s (Good n s) e (obliged e hi calm) h
