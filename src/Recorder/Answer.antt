-- ===== src/Recorder/Answer.antt =====
-- The response that the conversion in pkg/metrics/openai_recorder.go puts together.
use model_runner.Common.{
  ℕ, ◌≡◌, false, List, [], ◌∷◌, ◌++◌, Option, none, some, Text, codes, text_eq,
}
use model_runner.Common.Int.{ℤ}
use model_runner.Recorder.Json.{
  Json, array, object, no_item, item, Fields, get_field, as_string, as_object,
}
use model_runner.Recorder.Joining.{contents}

module _ (int_of : ℕ → ℤ) (unmarshal : Text → Option (Option Fields))
    (marshal : Json → Option Text) where
  -- A response that is put together from the chunks, of which `chunk` is the last.
  pub record IsJoined (chunks : List (Option Fields)) (chunk m : Fields) : Type 0 where
    pub choice : Fields
    pub message : Fields
    pub choices_of : get_field (codes "choices") m ≡ some (array (item (object choice) no_item))
    pub message_of : as_object (get_field (codes "message") choice) ≡ some message
    pub content_of :
        as_string (get_field (codes "content") message)
        ≡ some (contents (chunks ++ some chunk ∷ []))
    pub no_delta : get_field (codes "delta") choice ≡ none
    pub named : as_string (get_field (codes "object") m) ≡ some (codes "chat.completion")
    pub others :
        (k : Text)
        → text_eq (codes "choices") k ≡ false
        → text_eq (codes "object") k ≡ false
        → get_field k m ≡ get_field k chunk

  -- What is written for a value, or the body if it cannot be written.
  unfoldable pub written_or : Text → Json → Text
  written_or body v = elim (marshal v) [ none ↦ body | some text ↦ text ]
