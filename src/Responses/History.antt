-- ===== src/Responses/History.antt =====
-- Executions of the store of store.go, and what a `Get` promises in terms of their history alone.
use model_runner.Common.{
  ℕ, ◌+◌, ◌≡◌, ◌≤◌, ◌<◌, refl, List, [], ◌∷◌, Option, none, some, arith, Text, text_eq, ltb,
  if◌then◌else◌,
}
use model_runner.Common.Assoc.{text_eq_inst}
use model_runner.Responses.Store.{StoredResponse, Store, save, delete_response, update, cleanup}

-- A call of an operation that writes, with its time; `swept` is a cleanup. An update also has how
-- long the function took that it calls.
pub data Event : Type 0 where
  saved : ℕ → Text → ℕ → Event
  deleted : Text → ℕ → Event
  updated : Text → ℕ → ℕ → Event
  swept : ℕ → Event

abbrev pub event_time : Event → ℕ
event_time (saved resp id t) = t
event_time (deleted id t) = t
event_time (updated id t took) = t
event_time (swept t) = t

unfoldable pub apply : Store → Event → Store
apply s (saved resp id t) = save s resp id t
apply s (deleted id t) = (delete_response s id).0
apply s (updated id t took) = (update s id t (t + took)).0
apply s (swept t) = cleanup s t

-- The store after a history, the newest event first.
unfoldable pub run : Store → List Event → Store
run s [] = s
run s (e ∷ es) = apply (run s es) e

-- When the call ends.
abbrev pub event_end : Event → ℕ
event_end (saved resp id t) = t
event_end (deleted id t) = t
event_end (updated id t took) = t + took
event_end (swept t) = t

-- The times of a history do not go back, and end by `now`.
abbrev pub EndsBy : ℕ → List Event → Type 0
EndsBy now [] = Unit {0}
EndsBy now (e ∷ es) = (event_end e ≤ now) × EndsBy (event_time e) es

-- An update extends what is still good.
abbrev pub renew : ℕ → ℕ → ℕ → Option StoredResponse → Option StoredResponse
renew ttl t refreshed none = none
renew ttl t refreshed (some r) =
    if ltb r.expires_at t then some r else some (record r { expires_at = refreshed + ttl })

-- What a history promises of an ID: the response saved last and not deleted since, with the time
-- up to which it is good. Cleanups do not count.
abbrev pub promise : ℕ → List Event → Text → Option StoredResponse
promise ttl [] id = none
promise ttl (saved resp j t ∷ es) id =
    if text_eq j id
    then some (record { response = resp; expires_at = t + ttl })
    else promise ttl es id
promise ttl (deleted j t ∷ es) id = if text_eq j id then none else promise ttl es id
promise ttl (updated j t took ∷ es) id =
    if text_eq j id then renew ttl t (t + took) (promise ttl es id) else promise ttl es id
promise ttl (swept t ∷ es) id = promise ttl es id

abbrev pub good_at : ℕ → Option StoredResponse → Option ℕ
good_at now none = none
good_at now (some r) = if ltb r.expires_at now then none else some r.response

-- The store holds what was promised, or has let go of it when it was no longer good.
pub data Agrees (now : ℕ) (held promised : Option StoredResponse) : Type 0 where
  same : held ≡ promised → Agrees now held promised
  gone :
      (r : StoredResponse)
      → held ≡ none
      → promised ≡ some r
      → r.expires_at < now
      → Agrees now held promised

pub Agrees-later :
    (t now : ℕ) (held promised : Option StoredResponse)
    → t ≤ now
    → Agrees t held promised
    → Agrees now held promised
Agrees-later t now held promised le (same e) = same e
Agrees-later t now held promised le (gone r h p lt) = gone r h p (omega arith)

pub apply-ttl : (s : Store) (e : Event) → (apply s e).ttl ≡ s.ttl
unfolding apply save delete_response update cleanup
apply-ttl s (saved resp id t) = refl
apply-ttl s (deleted id t) = ground arith
apply-ttl s (updated id t took) = ground arith
apply-ttl s (swept t) = refl
