-- ===== src/Yac/ClusterOrdering.antt =====
-- irohad/consensus/yac/impl/cluster_order.cpp and cluster_order.hpp: whose turn it is to lead.
use iroha.Prelude.{
  Bool, List, ℕ, Option, if◌then◌else◌, leb, ◌==◌, not, ◌+◌, ◌%◌, ◌^◌, length, get_elem?,
}
use iroha.Yac.Messages.{Peer}

pub record ClusterOrdering : Type 0 where
  pub order : List Peer
  pub index : ℕ

-- The constructor; `index_` begins at 0.
abbrev pub create : List Peer → ClusterOrdering
create order = record { order = order; index = 0 }

-- `currentLeader` resets an index out of range; with no peers `at` throws, which is `none`.
unfoldable pub current_leader : ClusterOrdering → ClusterOrdering × Option Peer
current_leader o =
    let o' = if leb (length o.order) o.index then record o { index = 0 } else o in
    (o', get_elem? o'.order o'.index)

unfoldable pub has_next : ClusterOrdering → Bool
has_next o = not (o.index == length o.order)

-- `++index_` on a uint32_t.
unfoldable pub switch_to_next : ClusterOrdering → ClusterOrdering
switch_to_next o = record o { index = (o.index + 1) % 2 ^ 32 }

abbrev pub get_number_of_peers : ClusterOrdering → ℕ
get_number_of_peers o = length o.order
