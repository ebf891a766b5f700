-- ===== src/Logs/Tests.antt =====
-- The merge of pkg/logs/merge.go on concrete logs, and its theorems on them.
use model_runner.Common.{
  ℕ, ◌≡◌, refl, ◌&&◌, ◌==◌, ◌∷◌, [], Option, none, some, Text, text_eq, codes, get_or,
  if◌then◌else◌, arith, length, ◌+◌,
}
use model_runner.Distribution.Hash.{split_at}
use model_runner.Logs.Merge.{
  merge_logs, parts_of, advance_log, drain, merge_both, trim_line_end, line_length, fuel_of,
}
use model_runner.Logs.Advance.{count_line, lines_of}
use model_runner.Logs.Lossless.{merge_logs-IsLossless, size_of}
use model_runner.Logs.Times.{times_of, stamp}
use model_runner.Logs.Order.{merge_logs-IsAscending, IsAscending}

-- The time is one byte between brackets.
unfoldable bracketed : Text → Option ℕ
bracketed line =
    if get_or line 0 0 == 91 && get_or line 2 0 == 93 then some (get_or line 1 0) else none

abbrev service_log : Text
service_log = codes "[1]start\n[5]stop\r\n\nplain\n"

abbrev engine_log : Option Text
engine_log = some (codes "[3]load\n[5]done")

merge_small : merge_logs bracketed service_log engine_log ≡ (
  codes "[1]start" ∷ codes "[3]load" ∷ codes "[5]stop" ∷ codes "plain" ∷ codes "[5]done" ∷ [],
  (25, 15),
)
unfolding merge_logs parts_of advance_log drain merge_both trim_line_end line_length fuel_of
    bracketed split_at text_eq
merge_small = refl

merge_logs-IsLossless_example :
    (count_line (codes "plain") (merge_logs bracketed service_log engine_log).0
      ≡ count_line (codes "plain") (lines_of (split_at 10 service_log))
        + count_line (codes "plain") (lines_of (parts_of engine_log)))
    × ((merge_logs bracketed service_log engine_log).1 ≡ (length service_log, size_of engine_log))
merge_logs-IsLossless_example =
    merge_logs-IsLossless bracketed (codes "plain") service_log engine_log

service_in_order : IsAscending 0 (times_of bracketed (lines_of (split_at 10 service_log)))
unfolding IsAscending times_of stamp lines_of split_at trim_line_end bracketed text_eq
service_in_order = (omega arith, (omega arith, tt))

engine_in_order : IsAscending 0 (times_of bracketed (lines_of (parts_of engine_log)))
unfolding IsAscending times_of stamp lines_of split_at trim_line_end bracketed parts_of text_eq
engine_in_order = (omega arith, (omega arith, tt))

merge_logs-IsAscending_example :
    IsAscending 0 (times_of bracketed (merge_logs bracketed service_log engine_log).0)
merge_logs-IsAscending_example =
    merge_logs-IsAscending bracketed service_log engine_log service_in_order engine_in_order
