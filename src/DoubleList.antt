-- ===== src/DoubleList.antt =====
-- include/nvalloc/internal/dl.h and src/dl.c: a ring of nodes with a head node that holds no data. The
-- nodes stand in a heap; a new one gets the address that the allocation returns.
pub mod Ring
pub mod Ends
pub mod Search
use nvalloc.Prelude.{update, ℕ, zero, suc, Option, none, some, if◌then◌else◌, ◌==◌}

-- `dlnode_t` at each address
pub record DlNodes : Type 0 where
  pub data_at : ℕ → ℕ
  pub pre : ℕ → ℕ
  pub nxt : ℕ → ℕ

-- `dl_t`
pub record DoubleList : Type 0 where
  pub head : ℕ

abbrev set_data : DlNodes → ℕ → ℕ → DlNodes
set_data nodes node d = record nodes { data_at = update nodes.data_at node d }

abbrev set_pre : DlNodes → ℕ → ℕ → DlNodes
set_pre nodes node p = record nodes { pre = update nodes.pre node p }

abbrev set_nxt : DlNodes → ℕ → ℕ → DlNodes
set_nxt nodes node p = record nodes { nxt = update nodes.nxt node p }

unfoldable pub dl_new : DlNodes → ℕ → DoubleList × DlNodes
dl_new nodes head = (record { head = head }, set_nxt (set_pre nodes head head) head head)

unfoldable pub dl_insert : DlNodes → DoubleList → ℕ → ℕ → DlNodes
dl_insert nodes dl node d =
    let n = set_data nodes node d in
    let n = set_nxt n node (n.nxt dl.head) in
    let n = set_pre n node dl.head in
    let n = set_pre n (n.nxt dl.head) node in set_nxt n dl.head node

unfoldable pub dl_insert_tail : DlNodes → DoubleList → ℕ → ℕ → DlNodes
dl_insert_tail nodes dl node d =
    let n = set_data nodes node d in
    let n = set_nxt n node dl.head in
    let n = set_pre n node (n.pre dl.head) in
    let n = set_nxt n (n.pre dl.head) node in set_pre n dl.head node

-- the loop of `dl_search`, for at most `fuel` nodes
unfoldable pub dl_search_from : ℕ → DlNodes → DoubleList → ℕ → ℕ → Option ℕ
dl_search_from zero nodes dl node d = none
dl_search_from (suc fuel) nodes dl node d =
    let rest = dl_search_from fuel nodes dl (nodes.nxt node) d in
    if node == dl.head then some node else if nodes.data_at node == d then some node else rest

unfoldable pub dl_search : ℕ → DlNodes → DoubleList → ℕ → Option ℕ
unfolding dl_search_from
dl_search fuel nodes dl d = dl_search_from fuel nodes dl (nodes.nxt dl.head) d

-- the node's memory, which is freed, keeps its contents here
unfoldable pub dl_delete : DlNodes → ℕ → DlNodes
dl_delete nodes dlnode =
    let n = set_nxt nodes (nodes.pre dlnode) (nodes.nxt dlnode) in
    set_pre n (n.nxt dlnode) (n.pre dlnode)

unfoldable pub dl_move_to_tail : DlNodes → DoubleList → ℕ → DlNodes
dl_move_to_tail nodes dl dlnode =
    let n = set_nxt nodes (nodes.pre dlnode) (nodes.nxt dlnode) in
    let n = set_pre n (n.nxt dlnode) (n.pre dlnode) in
    let n = set_nxt n dlnode dl.head in
    let n = set_pre n dlnode (n.pre dl.head) in
    let n = set_nxt n (n.pre dl.head) dlnode in set_pre n dl.head dlnode
