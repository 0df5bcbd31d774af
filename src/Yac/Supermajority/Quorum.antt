-- ===== src/Yac/Supermajority/Quorum.antt =====
-- Why two thirds: two supermajorities of one set of peers meet in more than the faulty ones.
use iroha.Prelude.{
  ℕ, ◌+◌, ◌*◌, ◌^◌, ◌≤◌, ◌<◌, ◌≡◌, List, true, arith, Blob, blob_discrete, length, IsDistinct,
  IsWithin, common, length-common, common-IsDistinct,
}
use iroha.Yac.Supermajority.{has_supermajority, has_supermajority_iff}

-- Any two duplicate-free sets of voters out of the same n peers (0 < n < 2^64), each a
-- supermajority, share k distinct peers with 3k ≥ n + 2: more than any number f of faulty peers
-- with 3f < n, so one of the shared peers is honest.
pub supermajority-overlap :
    (peers xs ys : List Blob) (f : ℕ)
    → 0 < length peers
    → length peers < 2 ^ 64
    → IsDistinct blob_discrete xs
    → IsDistinct blob_discrete ys
    → IsWithin blob_discrete xs peers
    → IsWithin blob_discrete ys peers
    → has_supermajority (length xs) (length peers) ≡ true
    → has_supermajority (length ys) (length peers) ≡ true
    → 3 * f < length peers
    → IsDistinct blob_discrete (common blob_discrete xs ys)
      × (length peers + 2 ≤ 3 * length (common blob_discrete xs ys))
      × (f < length (common blob_discrete xs ys))
supermajority-overlap peers xs ys f pos small dx dy wx wy sx sy faulty =
    let bx = (has_supermajority_iff (length xs) (length peers) pos small).0 sx in
    let by_ = (has_supermajority_iff (length ys) (length peers) pos small).0 sy in
    let overlap = length-common blob_discrete xs ys peers dx dy wx wy in
    (common-IsDistinct blob_discrete xs ys dx, omega arith, omega arith)
