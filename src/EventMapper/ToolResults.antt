-- ===== src/EventMapper/ToolResults.antt =====
-- web/server/src/transcript-hydrator.ts: what the mapper reads of a tool's result, which is any JSON value.
use fleet_prime_agent.Prelude.{
  ℕ, String, Bool, false, ◌||◌, Option, none, some, or_else, if◌then◌else◌, ◌==◌,
}
use fleet_prime_agent.Prelude.Text.{◌<>◌, truthy?, trim}
use fleet_prime_agent.Prelude.Json.{
  Value, bool, str, obj, arr, Fields, Items, nil, cons, field_of, record_of, string_of, number_of,
}

abbrev pub is_text : Option String → String → Bool
is_text none s = false
is_text (some t) s = t == s

abbrev pub is_true : Option Value → Bool
is_true (some (bool b)) = b
is_true _ = false

abbrev pub inside : Option Fields → String → Option Value
inside none key = none
inside (some fields) key = field_of fields key

-- `isToolResultError`
unfoldable pub is_tool_result_error : Option Value → Option Value → Bool
is_tool_result_error is_error result =
    let details = record_of (inside (record_of result) "details") in
    is_true is_error || is_text (string_of (inside details "status")) "error"

-- The text of a block of a result, without the white space around it.
unfoldable pub block_text : Value → Option String
block_text (str s) = truthy? (some (trim s))
block_text (obj fields) =
    if is_text (string_of (field_of fields "type")) "text"
    then truthy?
        (elim (string_of (field_of fields "text")) [ none ↦ none | some s ↦ some (trim s) ])
    else none
block_text _ = none

unfoldable pub line_up : Option String → Option String → Option String
line_up none rest = rest
line_up (some line) none = some line
line_up (some line) (some rest) = some (line <> "\n" <> rest)

-- `texts.join("\n")` for the blocks that have text.
unfoldable pub content_text : Items → Option String
unfolding block_text line_up
content_text nil = none
content_text (cons block rest) = line_up (block_text block) (content_text rest)

abbrev pub content_of : Option Value → Option String
unfolding content_text
content_of (some (arr items)) = content_text items
content_of _ = none

abbrev pub failed : String
failed = "Tool execution failed"

-- `extractToolErrorText`; a value that came as JSON is no `Error`.
unfoldable pub extract_tool_error_text : Option Value → String
unfolding content_of
extract_tool_error_text (some (str s)) = if s == "" then failed else s
extract_tool_error_text (some (obj fields)) =
    let details = record_of (field_of fields "details") in
    let top = λ (key : String). string_of (field_of fields key) in
    let deep = λ (key : String). string_of (inside details key) in
    let found = or_else (top "error") (
      or_else (top "stderr") (
        or_else (top "message") (
          or_else (deep "stderr") (
            or_else (deep "error")
              (or_else (deep "message") (content_of (field_of fields "content"))))))) in
    elim found [ none ↦ failed | some s ↦ s ]
extract_tool_error_text _ = failed

-- `extractToolBackgroundOutput`
unfoldable pub extract_tool_background_output : Option Value → Option String
extract_tool_background_output result =
    let details = record_of (inside (record_of result) "details") in
    or_else (string_of (inside (record_of result) "backgroundOutput"))
      (string_of (inside details "backgroundOutput"))

-- `result.durationMs`, or that of its details, where it is a number.
unfoldable pub duration_of : Option Value → Option ℕ
duration_of result =
    let details = record_of (inside (record_of result) "details") in
    or_else (number_of (inside (record_of result) "durationMs"))
      (number_of (inside details "durationMs"))
