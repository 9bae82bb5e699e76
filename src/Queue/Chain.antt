-- ===== src/Queue/Chain.antt =====
-- The nodes of a queue.hpp list on the heap: from the first pointer, through distinct addresses, to the
-- null pointer.
use distributed_thread_libra.Prelude.{
  ◌≡◌, ◌≢◌, refl, Bool, true, false, ◌||◌, Option, none, some, List, [], ◌∷◌, ◌++◌, ◌==◌, arith,
  Bool-cases, inl, inr,
}
use distributed_thread_libra.Queue.{Ptr, null, Heap, QueueNode, cell, write}

module _ {ℓ} {T : Type ℓ} where
  -- Address and value of each node, in order.
  abbrev pub has : Ptr → List (Ptr × T) → Bool
  has a [] = false
  has a ((p, v) ∷ cs) = (a == p) || has a cs

  -- The address of the last node, `d` if there is none.
  abbrev pub last_of : Ptr → List (Ptr × T) → Ptr
  last_of d [] = d
  last_of d ((p, v) ∷ cs) = last_of p cs

  -- From `p` the nodes `cs` lead to `stop`.
  pub data Chain (h : Heap T) (stop : Ptr) : Ptr → List (Ptr × T) → Type ℓ where
    nil : Chain h stop stop []
    cons :
        {p q : Ptr} {v : T} {cs : List (Ptr × T)}
        → p ≢ null
        → h p ≡ some (cell v q)
        → has p cs ≡ false
        → Chain h stop q cs
        → Chain h stop p ((p, v) ∷ cs)

  module _ {h : Heap T} {stop : Ptr} where
    -- A write elsewhere leaves the chain.
    pub Chain-write :
        {p : Ptr} {cs : List (Ptr × T)} (a : Ptr) (c : Option (QueueNode T))
        → Chain h stop p cs
        → has a cs ≡ false
        → Chain (write h a c) stop p cs
    unfolding write
    Chain-write a c nil out = nil
    Chain-write a c (cons ne e fresh r) out =
        cons ne (ground arith) fresh (Chain-write a c r (ground arith))

    pub unused :
        {p : Ptr} {cs : List (Ptr × T)} (a : Ptr)
        → Chain h stop p cs
        → h a ≡ none
        → has a cs ≡ false
    unused a nil free = refl
    unused a (cons {p} ne e fresh r) free = elim (Bool-cases (a == p)) [
      | inl same ↦ ground arith
      | inr other ↦ rw other (unused a r free)
    ]

  pub has-snoc :
      (a : Ptr) (cs : List (Ptr × T)) (p : Ptr) (v : T)
      → has a cs ≡ false
      → (a == p) ≡ false
      → has a (cs ++ (p, v) ∷ []) ≡ false
  has-snoc a [] p v h ne = ground arith
  has-snoc a (c ∷ cs) p v h ne = ground (arith, has-snoc a cs p v)

  pub has-last : (p : Ptr) (v : T) (cs : List (Ptr × T)) → has (last_of p cs) ((p, v) ∷ cs) ≡ true
  has-last p v [] = ground arith
  has-last p v ((q, w) ∷ cs) = ground (arith, has-last q w cs)

  -- A new node is linked behind the last one.
  pub Chain-snoc :
      {h : Heap T} {p q : Ptr} {v : T} {cs : List (Ptr × T)} (fresh : Ptr) (w : T)
      → Chain h null p ((q, v) ∷ cs)
      → fresh ≢ null
      → has fresh ((q, v) ∷ cs) ≡ false
      → h fresh ≡ some (cell w null)
      → (u : T) × (h (last_of q cs) ≡ some (cell u null))
        × (last_of q cs ≢ null)
        × Chain
            (write h (last_of q cs) (some (cell u fresh)))
            null
            p
            ((q, v) ∷ cs ++ (fresh, w) ∷ [])
  unfolding write
  Chain-snoc fresh w (cons {v} ne e out nil) nf isnt at_fresh =
      (v, e, ne, cons ne (ground arith) (ground arith) (cons nf (ground arith) refl nil))
  Chain-snoc fresh w (cons {p} {v} ne e out (cons {p = q} {v = v'} {cs} ne' e' out' r)) nf isnt
        at_fresh =
      let (u, last, nl, r') = Chain-snoc fresh w (cons ne' e' out' r) nf (ground arith) at_fresh in
      (
        u,
        last,
        nl,
        cons ne (ground (arith, has-last q v' cs))
            (has-snoc p ((q, v') ∷ cs) fresh w out (ground arith)) r',
      )

  -- A chain with a first node, taken apart.
  pub uncons :
      {h : Heap T} {stop f p : Ptr} {v : T} {cs : List (Ptr × T)}
      → Chain h stop f ((p, v) ∷ cs)
      → (f ≡ p)
        × (p ≢ null)
        × (has p cs ≡ false)
        × ((q : Ptr) × (h p ≡ some (cell v q)) × Chain h stop q cs)
  uncons (cons {q} ne e out r) = (refl, ne, out, (q, e, r))

  pub last_of-snoc :
      (d : Ptr) (cs : List (Ptr × T)) (p : Ptr) (v : T) → last_of d (cs ++ (p, v) ∷ []) ≡ p
  last_of-snoc d [] p v = refl
  last_of-snoc d ((q, w) ∷ cs) p v = last_of-snoc q cs p v
