-- ===== src/Responses/Tests.antt =====
-- A history of the store of responses, and the theorem at it.
use model_runner.Common.{◌≡◌, refl, List, [], ◌∷◌, none, some, codes, text_eq, arith}
use model_runner.Common.Int.{pos}
use model_runner.Responses.Store.{new_store, get}
use model_runner.Responses.History.{Event, saved, updated, swept, run, EndsBy, good_at, promise}
use model_runner.Responses.Promise.{get-run}

-- With a time to live of 10: a save at 1, an update from 4 to 5, a cleanup at 12, another save.
abbrev busy_day : List Event
busy_day = saved 8 (codes "b") 13 ∷ swept 12 ∷ updated (codes "a") 4 1 ∷ saved 7 (codes "a") 1 ∷ []

busy_day_ends : EndsBy 15 busy_day
busy_day_ends = (omega arith, (omega arith, (omega arith, (omega arith, tt))))

busy_day-promise : good_at 15 (promise (new_store (pos 10)).ttl busy_day (codes "a")) ≡ some 7
unfolding text_eq new_store
busy_day-promise = refl

busy_day_late : good_at 16 (promise (new_store (pos 10)).ttl busy_day (codes "a")) ≡ none
unfolding text_eq new_store
busy_day_late = refl

get-run_example :
    get (run (new_store (pos 10)) busy_day) (codes "a") 15
    ≡ good_at 15 (promise (new_store (pos 10)).ttl busy_day (codes "a"))
get-run_example = get-run (pos 10) busy_day 15 (codes "a") busy_day_ends
