-- ===== src/SessionTree/Tests.antt =====
-- A tree whose active branch asks for a tool, gets its result, and is followed by an answer.
use fleet_prime_agent.Prelude.{String, ◌≡◌, ◌⊎◌, refl, false, List, [], ◌∷◌, Option, none, some}
use fleet_prime_agent.Prelude.Dict.{lookup, insert}
use fleet_prime_agent.Prelude.Json.{Value, Items, Fields}
use fleet_prime_agent.SessionTree.{Entry, node, Nodes, no_nodes, more, find_active_branch_entries}
use fleet_prime_agent.SessionTree.Branch.{has_entry, Chain, find_active_branch_entries-Chain}
use fleet_prime_agent.SessionTree.Context.{context_entries, build_message_index_by_entry_id}
use fleet_prime_agent.SessionTree.Context.Indexed.{PointsAt, lookup-PointsAt}
use fleet_prime_agent.SessionTree.Shown.{
  map_session_tree_snapshot, message_id_for_session_tree_entry, id_with,
}
use fleet_prime_agent.SessionTree.Shown.Lookup.{message_id-lookup}

abbrev said : String → String → Option Value → Option String → Entry
said id role content call = record {
  id = id;
  kind = "message";
  parent_id = none;
  label = none;
  first_kept_entry_id = none;
  summary = none;
  custom_type = none;
  display = none;
  harness_digest = none;
  message =
      some (record { role = some role; content = content; tool_call_id = call; display = none });
}

abbrev tool_call : Value
tool_call = Value.arr (
    Items.cons
      (Value.obj
        (Fields.field "type" (Value.str "toolCall") (Fields.field "id" (Value.str "c") Fields.end)))
      Items.nil)

abbrev asks : Entry
asks = said "e1" "assistant" (some tool_call) none

abbrev gets : Entry
gets = said "e2" "toolResult" none (some "c")

abbrev branch : List Entry
branch = asks ∷ gets ∷ []

abbrev tree : Nodes
tree = more (node asks none (more (node gets none no_nodes) no_nodes)) no_nodes

result_index : lookup "e2" (build_message_index_by_entry_id branch) ≡ some 0
unfolding build_message_index_by_entry_id lookup insert
result_index = refl

lookup-PointsAt_example : PointsAt (context_entries branch) "e2" 0
lookup-PointsAt_example = lookup-PointsAt branch "e2" 0 result_index

find_active_branch_entries-Chain_example :
    ((has_entry "e2" tree ≡ false) × (find_active_branch_entries tree (some "e2") ≡ []))
    ⊎ Chain "e2" tree (find_active_branch_entries tree (some "e2"))
find_active_branch_entries-Chain_example = find_active_branch_entries-Chain tree "e2" refl

message_id-lookup_example :
    message_id_for_session_tree_entry "s" (map_session_tree_snapshot "s" tree (some "e2")) "e2"
    ≡ id_with "s" (
        lookup "e2" (build_message_index_by_entry_id (find_active_branch_entries tree (some "e2"))))
message_id-lookup_example = message_id-lookup "s" tree (some "e2") "e2"
