-- ===== src/Dsm/Node.antt =====
-- src/lib/dsm_node.cpp: one node, its page table and the handlers that read and change it. A page's
-- bytes are one number, `mem p`; `prot p` is the protection that the traced process has for the page.
-- A handler that lets go of a lock, or takes none, is cut into the parts that others can come between.
use Prim.Native.Nat.{bit_and}
use distributed_thread_libra.Prelude.{
  ℕ, Bool, true, false, not, ◌&&◌, Option, none, some, List, [], ◌∷◌, ltb, ◌==◌, if◌then◌else◌,
  length, get_or, set, replicate, change,
}

abbrev pub dsm_prot_read : ℕ
dsm_prot_read = 0b1

abbrev pub dsm_prot_write : ℕ
dsm_prot_write = 0b111

abbrev pub dsm_prot_owned : ℕ
dsm_prot_owned = 0b101

abbrev pub dsm_prot_invalid : ℕ
dsm_prot_invalid = 0

-- `DSM_PROT_CHECK` and the macros made from it
abbrev pub dsm_prot_check : ℕ → ℕ → Bool
dsm_prot_check info prot = bit_and info prot == prot

abbrev pub readable : ℕ → Bool
readable info = dsm_prot_check info dsm_prot_read

abbrev pub writable : ℕ → Bool
writable info = dsm_prot_check info dsm_prot_write

abbrev pub ownership : ℕ → Bool
ownership info = dsm_prot_check info dsm_prot_owned

-- PROT_NONE, PROT_READ and PROT_READ | PROT_WRITE
pub data HwProt : Type 0 where
  no_access read_only read_write : HwProt

-- A thread of `grant_prot`: the request is under way to node `j`; node `j` has let go of the page and
-- copies it; the answer is under way; `done` is set.
pub data Request : Type 0 where
  sent : ℕ → Request
  copying : ℕ → Request
  replied : Option ℕ → Request
  done : Request

-- Where the signal handler of a node stands.
pub data Phase : Type 0 where
  idle : Phase  -- no fault: the program runs
  checked : ℕ → Phase  -- `handler` found the page owned and calls `update_prot`
  updating : ℕ → Phase  -- `update_prot` found it owned and is about to write
  asking : (page prot : ℕ) → List Request → (data' : Option ℕ) → Phase  -- in `grant_prot`

pub record Node : Type 0 where
  pub page_info : List ℕ
  pub prot : ℕ → HwProt
  pub mem : ℕ → ℕ
  pub conn : List ℕ
  pub phase : Phase

-- The constructor of `DSMNode`: the master has every page, another node none.
unfoldable pub make_node : (pages : ℕ) → (is_master : Bool) → (conn : List ℕ) → (ℕ → ℕ) → Node
make_node pages is_master conn mem = record {
  page_info = replicate pages (if is_master then dsm_prot_write else dsm_prot_invalid);
  prot = λ p. if is_master then read_write else no_access;
  mem = mem;
  conn = conn;
  phase = idle;
}

-- `page_info[p]`
abbrev pub prot_check : Node → ℕ → ℕ
prot_check n p = get_or n.page_info p dsm_prot_invalid

-- The test of `response_read` and `response_write`.
abbrev pub is_owner : Node → ℕ → Bool
is_owner n p = ltb p (length n.page_info) && ownership (prot_check n p)

abbrev pub set_info : Node → ℕ → ℕ → Node
set_info n p v = record n { page_info = set n.page_info p v }

abbrev pub user_mprotect : Node → ℕ → HwProt → Node
user_mprotect n p x = record n { prot = change n.prot p x }

-- `response_write` up to the unlock: whether the node had the page and gave it up.
unfoldable pub response_write : Node → ℕ → Node × Bool
response_write n p = if is_owner n p then (set_info n p dsm_prot_read, true) else (n, false)

-- The rest of `response_write`: the page is made read-only and its bytes are read. The request for it is carried out with
-- its own arguments.
unfoldable pub response_write_copy : Node → ℕ → Node × ℕ
response_write_copy n p = (user_mprotect n p read_only, n.mem p)

-- `response_read`, all of it under the lock `mu`, which PageLock has.
unfoldable pub response_read : Node → ℕ → Node × Option ℕ
response_read n p =
    if is_owner n p
    then (
      user_mprotect n p (if ownership (prot_check n p) then read_write else read_only),
      some (n.mem p),
    )
    else (n, none)

-- `args` of `grant_prot`, a request to each connection.
abbrev pub requests : List ℕ → List Request
requests [] = []
requests (j ∷ js) = sent j ∷ requests js

-- `handler`, for an address in range: it looks at the page's entry, and goes on to `update_prot`, or to
-- `grant_write` or `grant_read`, which start with `grant_prot`.
unfoldable pub handler : Node → ℕ → Node
handler n p =
    let prot = prot_check n p in
    let is_write = not (bit_and prot dsm_prot_read == 0) in
    if ownership prot then record n { phase = checked p } else record n {
      phase = asking p (if is_write then dsm_prot_write else dsm_prot_read) (requests n.conn) none;
    }

-- `update_prot` up to its test.
unfoldable pub update_prot_test : Node → ℕ → Node
update_prot_test n p = record n { phase = if ownership (prot_check n p) then updating p else idle }

-- The rest of `update_prot`.
unfoldable pub update_prot_set : Node → ℕ → Node
update_prot_set n p = record (user_mprotect (set_info n p dsm_prot_write) p read_write) {
  phase = idle;
}

-- The end of `grant_prot`, with a page: it is made writable, and its bytes are written.
abbrev pub install : Node → ℕ → ℕ → Node
install n p c = record (user_mprotect n p read_write) { mem = change n.mem p c }

-- `grant_write` and `grant_read` after `grant_prot` returned true, when they have `mu`.
abbrev pub grant_write : Node → ℕ → Node
grant_write n p = set_info n p dsm_prot_write

abbrev pub grant_read : Node → ℕ → Node
grant_read n p = user_mprotect (set_info n p dsm_prot_read) p read_only

-- Every thread has been joined: with a page the node takes it, with none the handler just returns.
unfoldable pub grant_prot_end : Node → (page prot : ℕ) → Option ℕ → Node
grant_prot_end n p prot none = record n { phase = idle }
grant_prot_end n p prot (some c) =
    record (if prot == dsm_prot_read
      then grant_read (install n p c) p
      else grant_write (install n p c) p) { phase = idle }

-- A thread takes its answer: `data` keeps the last whole page.
unfoldable pub receive : Option ℕ → Option ℕ → Option ℕ
receive none data' = data'
receive (some c) data' = some c

-- `dsm::sync` of the program: the first `total` pages lose their access, and `page_info` is as before.
unfoldable pub sync : Node → (total : ℕ) → Node
sync n total = record n { prot = λ p. if ltb p total then no_access else n.prot p }
