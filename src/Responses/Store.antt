-- ===== src/Responses/Store.antt =====
-- The store of pkg/responses/store.go. Times are nanoseconds. A response is known by its pointer,
-- since the store never looks into one but for the ID at a save; each operation runs under the
-- lock, and is one function of the state.
use model_runner.Common.{
  ℕ, ◌+◌, ◌*◌, Bool, true, false, List, [], ◌∷◌, Option, none, some, Text, ltb, ◌==◌, if◌then◌else◌,
  length,
}
use model_runner.Common.Int.{ℤ, pos, negsuc}
use model_runner.Common.Assoc.{lookup, insert, delete, text_eq_inst}

-- One hour.
abbrev pub default_ttl : ℕ
default_ttl = 60 * 60 * 1_000_000_000

pub record StoredResponse : Type 0 where
  pub response : ℕ
  pub expires_at : ℕ

pub record Store : Type 0 where
  pub responses : List (Text × StoredResponse)
  pub ttl : ℕ

unfoldable pub new_store : ℤ → Store
new_store (pos ttl) = record { responses = []; ttl = if ttl == 0 then default_ttl else ttl }
new_store (negsuc _) = record { responses = []; ttl = default_ttl }

-- `id` is resp.ID at the call.
unfoldable pub save : Store → ℕ → Text → ℕ → Store
save s resp id now = record s {
  responses = insert id (record { response = resp; expires_at = now + s.ttl }) s.responses;
}

-- `now.After(stored.expiresAt)`
unfoldable pub is_expired : ℕ → StoredResponse → Bool
is_expired now stored = ltb stored.expires_at now

unfoldable pub get : Store → Text → ℕ → Option ℕ
get s id now = elim (lookup id s.responses) [
  | none ↦ none
  | some stored ↦ if is_expired now stored then none else some stored.response
]

unfoldable pub delete_response : Store → Text → Store × Bool
delete_response s id = elim (lookup id s.responses) [
  | none ↦ (s, false)
  | some stored ↦ (record s { responses = delete id s.responses }, true)
]

-- The response that `updateFn` is called with, if the result is true; `refreshed` is the time after
-- that call.
unfoldable pub update : Store → Text → ℕ → ℕ → Store × Option ℕ
update s id now refreshed = elim (lookup id s.responses) [
  | none ↦ (s, none)
  | some stored ↦ if is_expired now stored then (s, none) else (
    record s {
      responses =
          insert id (record { response = stored.response; expires_at = refreshed + s.ttl })
            s.responses;
    },
    some stored.response,
  )
]

-- The loop of `cleanup`, over the entries that are there at its start: a round deletes at most its
-- own entry.
unfoldable pub cleanup_loop :
    ℕ → List (Text × StoredResponse) → List (Text × StoredResponse) → List (Text × StoredResponse)
cleanup_loop now [] responses = responses
cleanup_loop now ((id, stored) ∷ rest) responses =
    cleanup_loop now rest (if is_expired now stored then delete id responses else responses)

unfoldable pub cleanup : Store → ℕ → Store
cleanup s now = record s { responses = cleanup_loop now s.responses s.responses }

unfoldable pub count : Store → ℕ
count s = length s.responses

-- The order is that in which the map is visited.
unfoldable pub get_response_ids : List (Text × StoredResponse) → List Text
get_response_ids [] = []
get_response_ids ((id, _) ∷ rest) = id ∷ get_response_ids rest
