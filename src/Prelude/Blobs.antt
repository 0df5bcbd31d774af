-- ===== src/Prelude/Blobs.antt =====
-- `std::string` and `blob_t<n>` (libs/common/types.hpp): sequences of bytes, compared by content.
use Prim.Native.Nat.{ℕ}
use mathlib.Core.Bool.{Bool}
use mathlib.Core.List.{List}
use native.Mathlib.Decide.{ℕ_discrete}
use iroha.Prelude.Tests.{is_yes}

abbrev pub Blob : Type 0
Blob = List ℕ

unfoldable pub blob_discrete : Discrete Blob
unfolding ℕ_discrete
blob_discrete = hlevel ℕ_discrete

-- `==` on strings and blobs.
infix 50 ◌=ᵇ◌
abbrev pub ◌=ᵇ◌ : Blob → Blob → Bool
a =ᵇ b = is_yes (blob_discrete a b)
