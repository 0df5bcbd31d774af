-- ===== src/Torii/Handlers.antt =====
-- `handler_map_` of irohad/torii/command_service.hpp and query_service.hpp: for each hash, a
-- reference to the response of a call. References are numbers, and the responses that they stand
-- for are kept for good; the source frees a response when its call has been answered.
use iroha.Prelude.{
  ◌≡◌, ◌≢◌, ℕ, List, [], ◌∷◌, Option, none, some, Blob, ◌=ᵇ◌, ◌==◌, is_some, if◌then◌else◌, arith,
}

abbrev pub HandlerMap : Type 0
HandlerMap = List (Blob × ℕ)

abbrev pub Responses : Type 0 → Type 0
Responses R = ℕ → R

unfoldable pub find : Blob → HandlerMap → Option ℕ
find hash [] = none
find hash (entry ∷ entries) = if hash =ᵇ entry.0 then some entry.1 else find hash entries

-- `insert` leaves the entry of a hash that is there.
unfoldable pub insert : Blob → ℕ → HandlerMap → HandlerMap
unfolding find
insert hash response handlers =
    if is_some (find hash handlers) then handlers else (hash, response) ∷ handlers

-- What is written through a reference.
abbrev pub write : {R : Type 0} → ℕ → R → Responses R → Responses R
write response value responses = λ r. if r == response then value else responses r

pub find-insert :
    (hash : Blob) (response : ℕ) (handlers : HandlerMap)
    → find hash (insert hash response handlers)
      ≡ (if is_some (find hash handlers) then find hash handlers else some response)
unfolding insert find
find-insert hash response handlers = ground arith

pub write_same :
    {R : Type 0} (response : ℕ) (value : R) (responses : Responses R)
    → write response value responses response ≡ value
write_same response value responses = ground arith

pub write_other :
    {R : Type 0} (response r : ℕ) (value : R) (responses : Responses R)
    → r ≢ response
    → write response value responses r ≡ responses r
write_other response r value responses n = ground (arith, n)
