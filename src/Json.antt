-- ===== src/Json.antt =====
-- Documents of rapidjson, as far as irohad/model/converters/impl/json_*.cpp use them, and json_common.cpp.
-- An access that rapidjson asserts against (a member that is missing, a value of another type) has
-- no result here, and neither have a null pointer and `nullopt`.
pub mod Hex
pub mod Commands
pub mod Blocks
pub mod Queries
pub mod Tests
use iroha.Prelude.{
  ◌≡◌, refl, ℕ, ◌^◌, ◌<◌, ◌≢◌, Bool, true, false, List, [], ◌∷◌, Option, none, some, Blob, ltb,
  ◌==◌ as ◌=ⁿ◌, is_some, ◌&&◌, if◌then◌else◌, ◌>>=◌, All, map, arith,
}
use Prim.Native.String.{String}
use Prim.Native.Char.{code}
use text.Mathlib.Text.{◌==◌}

mutual
  pub data Json : Type 0 where
    json_null : Json
    json_bool : Bool → Json
    json_uint : ℕ → Json
    json_string : Blob → Json
    json_array : Values → Json
    json_object : Members → Json

  pub data Values : Type 0 where
    no_values : Values
    value : Json → Values → Values

  pub data Members : Type 0 where
    no_members : Members
    member : String → Json → Members → Members

unfoldable pub find_member : String → Members → Option Json
find_member name no_members = none
find_member name (member key json members) =
    if name == key then some json else find_member name members

-- `document[name]`
unfoldable pub get : String → Json → Option Json
unfolding find_member
get name (json_object members) = find_member name members
get name _ = none

-- The bytes of a literal.
abbrev pub codes : String → Blob
codes String.[] = []
codes (String.◌∷◌ c s) = code c ∷ codes s

-- The bytes of a C string.
unfoldable pub c_string : Blob → Blob
c_string [] = []
c_string (x ∷ s) = let rest = c_string s in if x =ⁿ 0 then [] else x ∷ rest

unfoldable pub get_string : Json → Option Blob
unfolding c_string
get_string (json_string s) = some (c_string s)
get_string _ = none

abbrev pub get_bool : Json → Option Bool
get_bool (json_bool b) = some b
get_bool _ = none

unfoldable pub get_uint : Json → Option ℕ
get_uint (json_uint n) = if ltb n (2 ^ 32) then some n else none
get_uint _ = none

unfoldable pub get_uint64 : Json → Option ℕ
get_uint64 (json_uint n) = if ltb n (2 ^ 64) then some n else none
get_uint64 _ = none

-- A loop of `PushBack`.
unfoldable pub to_values {ℓ} : {A : Type ℓ} → (A → Json) → List A → Values
to_values f [] = no_values
to_values f (x ∷ xs) = value (f x) (to_values f xs)

-- A loop from `Begin()` to `End()`.
unfoldable pub from_values {ℓ} : {A : Type ℓ} → (Json → Option A) → Values → Option (List A)
from_values f no_values = some []
from_values f (value json values) = do x ← f json; xs ← from_values f values; some (x ∷ xs)

unfoldable pub get_array {ℓ} : {A : Type ℓ} → (Json → Option A) → Json → Option (List A)
unfolding from_values
get_array f (json_array values) = from_values f values
get_array f _ = none

-- `verifyRequiredMembers`
unfoldable pub verify_required_members : Json → List String → Bool
unfolding get
verify_required_members document [] = true
verify_required_members document (name ∷ names) =
    is_some (get name document) && verify_required_members document names

-- Text without a zero byte.
abbrev pub IsText : Blob → Type 0
IsText = All (λ c. c ≢ 0)

pub c_string_all : (s : Blob) → IsText s → c_string s ≡ s
unfolding c_string
c_string_all [] h = refl
c_string_all (x ∷ s) h = ground (arith, c_string_all s h.1, h.0)

pub get_string-text : (s : Blob) → IsText s → get_string (json_string s) ≡ some s
unfolding get_string
get_string-text s h = rw (c_string_all s h) refl

pub from_values-to_values {ℓ κ} :
    {A : Type ℓ} (P : A → Type κ) (f : Json → Option A) (g : A → Json) (h : A → A)
    → ((a : A) → P a → f (g a) ≡ some (h a))
    → (xs : List A) → All P xs
    → from_values f (to_values g xs) ≡ some (map h xs)
unfolding from_values to_values
from_values-to_values P f g h e [] p = refl
from_values-to_values P f g h e (x ∷ xs) p =
    rw (e x p.0, from_values-to_values P f g h e xs p.1) refl

abbrev pub object : List (String × Json) → Members
object [] = no_members
object (m ∷ ms) = member m.0 m.1 (object ms)

abbrev pub string_at : String → Json → Option Blob
string_at name document = do json ← get name document; get_string json

abbrev pub bool_at : String → Json → Option Bool
bool_at name document = do json ← get name document; get_bool json

abbrev pub uint_at : String → Json → Option ℕ
uint_at name document = do json ← get name document; get_uint json

abbrev pub uint64_at : String → Json → Option ℕ
uint64_at name document = do json ← get name document; get_uint64 json

abbrev pub array_at {ℓ} : {A : Type ℓ} → (Json → Option A) → String → Json → Option (List A)
array_at f name document = do json ← get name document; get_array f json
