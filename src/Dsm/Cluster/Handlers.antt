-- ===== src/Dsm/Cluster/Handlers.antt =====
-- src/lib/dsm_node.cpp: what each handler of a node does to the node's share of the right to write.
use distributed_thread_libra.Prelude.{
  one_if, ℕ, ◌+◌, ◌<◌, ◌≡◌, Bool, true, false, ◌&&◌, Option, none, some, List, ◌==◌, length,
  get_or-set, length-set, arith,
}
use distributed_thread_libra.Dsm.Node.{
  Node, Phase, idle, checked, updating, asking, Request, response_write, response_read, ownership,
  prot_check, handler, update_prot_test, update_prot_set, grant_prot_end, sync,
}
use distributed_thread_libra.Dsm.Cluster.{all_done}
use distributed_thread_libra.Dsm.Cluster.Weights.{
  weight, IsSound, in_flights-requests, in_flights-done,
}
use distributed_thread_libra.Dsm.Cluster.Writers.{KeepsLent, stray, copies_from-done}

-- What a handler keeps: the share in every page, soundness, and who may write.
abbrev pub Keeps : Node → Node → Type 0
Keeps m m' = ((p : ℕ) → weight p m' ≡ weight p m) × IsSound m'.page_info m'.phase × KeepsLent m m'

pub handler_lem :
    (m : Node) (q : ℕ) → m.phase ≡ idle → q < length m.page_info → Keeps m (handler m q)
unfolding handler weight
handler_lem m q e l = (
  λ p. ground (arith, in_flights-requests m.conn),
  ground arith,
  λ p. (λ j g. ground arith, λ h. ground arith),
)

pub sync_lem : (m : Node) (total : ℕ) → m.phase ≡ idle → Keeps m (sync m total)
unfolding sync weight
sync_lem m total e = (λ p. ground arith, ground arith, λ p. (λ j g. g, λ h. ground arith))

pub update_prot_test_lem :
    (m : Node) (q : ℕ)
    → m.phase ≡ checked q
    → q < length m.page_info
    → Keeps m (update_prot_test m q)
unfolding update_prot_test weight
update_prot_test_lem m q e l =
    (λ p. ground arith, ground arith, λ p. (λ j g. ground arith, λ h. ground arith))

pub update_prot_set_lem :
    (m : Node) (q : ℕ)
    → m.phase ≡ updating q
    → q < length m.page_info
    → ownership (prot_check m q) ≡ true
    → Keeps m (update_prot_set m q)
unfolding update_prot_set weight
update_prot_set_lem m q e l o = (
  λ p. ground (arith, get_or-set m.page_info q p 7 0 l, length-set m.page_info q 7),
  tt,
  λ p. (
    λ j g. ground arith,
    λ h. ground (arith, get_or-set m.page_info q p 7 0 l, length-set m.page_info q 7),
  ),
)

pub grant_prot_end_lem :
    (m : Node) (q prot : ℕ) (rs : List Request) (d : Option ℕ)
    → m.phase ≡ asking q prot rs d
    → q < length m.page_info
    → ownership (prot_check m q) ≡ false
    → all_done rs ≡ true
    → Keeps m (grant_prot_end m q prot d)
unfolding grant_prot_end weight
grant_prot_end_lem m q prot rs none e l o h = (
  λ p. ground (arith, in_flights-done rs h),
  ground arith,
  λ p. (λ j g. ground (arith, copies_from-done j rs h), λ h'. ground arith),
)
grant_prot_end_lem m q prot rs (some c) e l o h = (
  λ p. ground (
    arith,
    in_flights-done rs h,
    get_or-set m.page_info q p 7 0 l,
    length-set m.page_info q 7,
    get_or-set m.page_info q p 1 0 l,
    length-set m.page_info q 1,
  ),
  ground arith,
  λ p. (
    λ j g. ground (arith, copies_from-done j rs h),
    λ h'. ground (
      arith,
      get_or-set m.page_info q p 7 0 l,
      length-set m.page_info q 7,
      get_or-set m.page_info q p 1 0 l,
      length-set m.page_info q 1,
    ),
  ),
)

abbrev pub is_updating : Phase → ℕ → Bool
is_updating (updating q) p = q == p
is_updating _ p = false

-- A node that gives a page up loses its share in that page and no other, and stays sound unless its
-- handler stands inside `update_prot` for the page.
pub response_write_lem :
    (m : Node) (q : ℕ)
    → ((p : ℕ)
        → weight p (response_write m q).0 + one_if ((q == p) && (response_write m q).1)
          ≡ weight p m)
      × ((response_write m q).0.phase ≡ m.phase)
unfolding response_write weight
response_write_lem m q =
    (λ p. ground (arith, get_or-set m.page_info q p 1 0, length-set m.page_info q 1), ground arith)

pub response_write-IsSound :
    (m : Node) (q : ℕ)
    → is_updating m.phase q ≡ false
    → IsSound m.page_info m.phase
    → IsSound (response_write m q).0.page_info m.phase
unfolding response_write
response_write-IsSound m q free v = sound m.phase free v
  where
    sound :
        (ph : Phase)
        → is_updating ph q ≡ false
        → IsSound m.page_info ph
        → IsSound (response_write m q).0.page_info ph
    sound idle f w = tt
    sound (checked r) f w = ground (arith, length-set m.page_info q 1)
    sound (updating r) f w =
        ground (arith, length-set m.page_info q 1, get_or-set m.page_info q r 1 0)
    sound (asking r prot rs d) f w =
        ground (arith, length-set m.page_info q 1, get_or-set m.page_info q r 1 0)

pub response_read_lem :
    (m : Node) (q : ℕ)
    → ((response_read m q).0.page_info ≡ m.page_info) × ((response_read m q).0.phase ≡ m.phase)
unfolding response_read
response_read_lem m q = (ground arith, ground arith)

-- The share of a node depends on its page table and phase alone.
pub weight-cong :
    (p : ℕ) (m m' : Node)
    → m'.page_info ≡ m.page_info
    → m'.phase ≡ m.phase
    → weight p m' ≡ weight p m
unfolding weight
weight-cong p m m' e f = rw (e, f)

pub response_write-stray :
    (m : Node) (q p : ℕ)
    → stray (response_write m q).0 p ≡ true
    → ((q == p) && (response_write m q).1) ≡ false
    → stray m p ≡ true
unfolding response_write
response_write-stray m q p h kept =
    ground (arith, get_or-set m.page_info q p 1 0, length-set m.page_info q 1)

pub response_read-stray :
    (m : Node) (q p : ℕ) → stray (response_read m q).0 p ≡ true → stray m p ≡ true
unfolding response_read
response_read-stray m q p h = ground arith
