-- ===== src/EventMapper/Lives/Kept.antt =====
-- web/server/src/event-mapper.ts: the operations that leave the open episodes as they are, and every
-- index in use in use.
use fleet_prime_agent.Prelude.{
  ℕ, String, ◌≡◌, refl, ◌∙◌, true, List, [], ◌∷◌, Option, none, some, ◌==◌, Bool-cases, inl, inr,
}
use fleet_prime_agent.Prelude.Text.{truthy?}
use fleet_prime_agent.Prelude.Json.{Value}
use fleet_prime_agent.Prelude.Dict.{lookup}
use fleet_prime_agent.Prelude.NatMap.{member}
use fleet_prime_agent.Chat.{Part}
use fleet_prime_agent.EventMapper.{MapperState, AssistantMessage, Hydrator}
use fleet_prime_agent.EventMapper.Episodes.{name_message, name_message_as}
use fleet_prime_agent.EventMapper.Tools.{
  Patch, upsert_current_tool_part, upsert_as, tool_name_for_event, name_or, learn,
  on_execution_start, on_execution_update, on_execution_end, keep_start, forget_call,
}
use fleet_prime_agent.EventMapper.Remember.{
  remember_assistant_message, text_from, remembered_parts, keep_parts, keep_tools, keep_tool,
  append_final_assistant_text,
}

pub record Keeps (s t : MapperState) : Type 0 where
  pub claims : (n : ℕ) → member n s.claimed ≡ true → member n t.claimed ≡ true
  pub opens : t.active ≡ s.active

-- The fields themselves stay.
pub same : {s t : MapperState} → t.claimed ≡ s.claimed → t.active ≡ s.active → Keeps s t
same e d = record { claims = λ n h. rw e h; opens = d }

pub Keeps-refl : (s : MapperState) → Keeps s s
Keeps-refl s = same refl refl

pub Keeps-trans : {s t u : MapperState} → Keeps s t → Keeps t u → Keeps s u
Keeps-trans h k = record { claims = λ n m. k.claims n (h.claims n m); opens = k.opens ∙ h.opens }

name_message_as-Keeps : (o : Option String) (s : MapperState) → Keeps s (name_message_as o s)
unfolding name_message_as
name_message_as-Keeps none s = same refl refl
name_message_as-Keeps (some id) s = Keeps-refl s

pub name_message-Keeps : (s : MapperState) → Keeps s (name_message s)
unfolding name_message
name_message-Keeps s = name_message_as-Keeps (truthy? s.current_message_id) s

upsert_as-Keeps : (o : Option String) (s : MapperState) (p : Patch) → Keeps s (upsert_as o s p).0
unfolding upsert_as
upsert_as-Keeps none s p = same refl refl
upsert_as-Keeps (some id) s p = same refl refl

upsert-Keeps : (s : MapperState) (p : Patch) → Keeps s (upsert_current_tool_part s p).0
unfolding upsert_current_tool_part
upsert-Keeps s p = upsert_as-Keeps (truthy? p.part.tool_call_id) s p

keep_tool-Keeps : (s : MapperState) (part : Part) → Keeps s (keep_tool s part)
unfolding keep_tool
keep_tool-Keeps s (Part.tool part) = upsert-Keeps s _
keep_tool-Keeps s (Part.text t) = Keeps-refl s
keep_tool-Keeps s (Part.reasoning r) = Keeps-refl s
keep_tool-Keeps s (Part.error a b) = Keeps-refl s
keep_tool-Keeps s (Part.image a b c) = Keeps-refl s
keep_tool-Keeps s (Part.payload p) = Keeps-refl s

keep_tools-Keeps : (s : MapperState) (parts : List Part) → Keeps s (keep_tools s parts)
unfolding keep_tools
keep_tools-Keeps s [] = Keeps-refl s
keep_tools-Keeps s (part ∷ parts) =
    Keeps-trans (keep_tool-Keeps s part) (keep_tools-Keeps (keep_tool s part) parts)

keep_parts-Keeps :
    (s : MapperState) (final : String) (parts : List Part) → Keeps s (keep_parts s final parts)
unfolding keep_parts
keep_parts-Keeps s final parts =
    let before = record s { current_text = append_final_assistant_text s.current_text final } in
    let k = keep_tools-Keeps before parts in record { claims = k.claims; opens = k.opens }

pub remember-Keeps :
    (h : Hydrator) (s : MapperState) (m : AssistantMessage)
    → Keeps s (remember_assistant_message h s m).0
unfolding remember_assistant_message
remember-Keeps h s m =
    let named = name_message (record s { assistant_message = some m }) in
    let naming = name_message-Keeps (record s { assistant_message = some m }) in
    Keeps-trans (record { claims = naming.claims; opens = naming.opens })
      (keep_parts-Keeps named (text_from m.content) (remembered_parts h named m))

learn-Keeps : (id : String) (o : Option String) (s : MapperState) → Keeps s (learn id o s).0
unfolding learn
learn-Keeps id none s = Keeps-refl s
learn-Keeps id (some name) s = same refl refl

name_or-Keeps : (o : Option String) (s : MapperState) (id : String) → Keeps s (name_or o s id).0
unfolding name_or
name_or-Keeps (some known) s id = Keeps-refl s
name_or-Keeps none s id = learn-Keeps id _ s

tool_name_for_event-Keeps :
    (s : MapperState) (id : String) (name : Option String)
    → Keeps s (tool_name_for_event s id name).0
unfolding tool_name_for_event
tool_name_for_event-Keeps s id none = name_or-Keeps (truthy? (lookup id s.tool_names)) s id
tool_name_for_event-Keeps s id (some name) = elim (Bool-cases (name == "")) [
  | inl empty ↦ rw empty (name_or-Keeps (truthy? (lookup id s.tool_names)) s id)
  | inr given ↦ rw given (learn-Keeps id (some name) s)
]

keep_start-Keeps :
    (id : String) (name : Option String) (args : Option Value) (s : MapperState)
    → Keeps s (keep_start id name args s)
unfolding keep_start
keep_start-Keeps id none args s = Keeps-refl s
keep_start-Keeps id (some name) args s = same refl refl

pub on_execution_start-Keeps :
    (h : Hydrator) (s : MapperState) (id : String) (name : Option String) (args : Option Value)
    → Keeps s (on_execution_start h s id name args).0
unfolding on_execution_start
on_execution_start-Keeps h s id name args =
    Keeps-trans (keep_start-Keeps id (truthy? name) args s) (
      Keeps-trans (tool_name_for_event-Keeps (keep_start id (truthy? name) args s) id name)
        (upsert-Keeps _ _))

pub on_execution_update-Keeps :
    (h : Hydrator) (s : MapperState) (id : String) (name : Option String)
    (args partial : Option Value)
    → Keeps s (on_execution_update h s id name args partial).0
unfolding on_execution_update
on_execution_update-Keeps h s id name args partial =
    Keeps-trans (tool_name_for_event-Keeps s id name) (upsert-Keeps _ _)

pub on_execution_end-Keeps :
    (h : Hydrator) (s : MapperState) (id : String) (name : Option String)
    (failed result : Option Value)
    → Keeps s (on_execution_end h s id name failed result).0
unfolding on_execution_end forget_call
on_execution_end-Keeps h s id name failed result =
    Keeps-trans (tool_name_for_event-Keeps s id name) (
      Keeps-trans (same refl refl)
        (upsert-Keeps (forget_call id (tool_name_for_event s id name).0) _))
