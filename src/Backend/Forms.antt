-- ===== src/Backend/Forms.antt =====
-- The texts of pkg/inference/backend.go. A keep-alive is a duration in nanoseconds; the parser and
-- the printer of Go durations are parameters.
use model_runner.Common.{
  Bool, true, false, List, [], ◌∷◌, ◌++◌, Option, none, some, Text, codes, text_eq, has_prefix,
  trim_prefix, if◌then◌else◌,
}
use model_runner.Common.Int.{ℤ, pos, negsuc, ltb_ℤ}
use model_runner.Loader.Keys.{BackendMode, completion, embedding, reranking, image_generation}
use model_runner.Loader.Release.{duration_eq}

abbrev pub status_running : Text
status_running = codes "Running"

abbrev pub status_error : Text
status_error = codes "Error"

abbrev pub status_not_installed : Text
status_not_installed = codes "Not Installed"

abbrev pub status_installing : Text
status_installing = codes "Installing"

unfoldable pub format_status : Text → Text → Text
format_status status_type [] = status_type
format_status status_type (c ∷ details) = status_type ++ (codes ": " ++ c ∷ details)

-- The loop of ParseStatus.
unfoldable pub parse_prefixes : List Text → Text → Text × Text
parse_prefixes [] status = (status_error, status)
parse_prefixes (prefix ∷ prefixes) status =
    let rest = parse_prefixes prefixes status in
    if text_eq status prefix
    then (prefix, [])
    else if has_prefix (prefix ++ codes ": ") status
    then (prefix, trim_prefix (prefix ++ codes ": ") status)
    else rest

abbrev pub status_types : List Text
status_types = status_running ∷ status_error ∷ status_not_installed ∷ status_installing ∷ []

unfoldable pub parse_status : Text → Text × Text
parse_status status =
    if text_eq status [] then (status_not_installed, []) else parse_prefixes status_types status

unfoldable pub mode_string : BackendMode → Text
mode_string completion = codes "completion"
mode_string embedding = codes "embedding"
mode_string reranking = codes "reranking"
mode_string image_generation = codes "image-generation"

unfoldable pub parse_backend_mode : Text → BackendMode × Bool
parse_backend_mode mode =
    if text_eq mode (codes "completion")
    then (completion, true)
    else if text_eq mode (codes "embedding")
    then (embedding, true)
    else if text_eq mode (codes "reranking")
    then (reranking, true)
    else if text_eq mode (codes "image-generation")
    then (image_generation, true)
    else (completion, false)

abbrev pub keep_alive_forever : ℤ
keep_alive_forever = negsuc 0

-- The string that MarshalJSON encodes; `duration_string` is time.Duration's String.
unfoldable pub keep_alive_string : (ℤ → Text) → ℤ → Text
keep_alive_string duration_string d =
    if duration_eq d keep_alive_forever then codes "-1" else duration_string d

-- `parse_duration` is time.ParseDuration.
unfoldable pub parse_keep_alive : (Text → Option ℤ) → Text → Option ℤ
parse_keep_alive parse_duration s =
    if text_eq s (codes "0")
    then some (pos 0)
    else if text_eq s (codes "-1")
    then some keep_alive_forever
    else elim (parse_duration s) [
      | none ↦ none
      | some d ↦ if ltb_ℤ d (pos 0) then some keep_alive_forever else some d
    ]
