-- ===== src/EventMapper/Lives/Finalized.antt =====
-- web/server/src/event-mapper.ts: the message that ends a run may claim indexes for blocks that were not
-- streamed; it opens and closes no episode.
use fleet_prime_agent.Prelude.{
  ℕ, suc, String, ◌≡◌, refl, Bool, true, false, ◌||◌, List, [], ◌∷◌, Option, none, some, ◌==◌,
  nat_eq, Bool-cases, inl, inr, find, any,
}
use fleet_prime_agent.Prelude.Text.{truthy?}
use fleet_prime_agent.Prelude.NatMap
use fleet_prime_agent.Prelude.NatMap.{member, member-add}
use fleet_prime_agent.Chat.{ToolPart}
use fleet_prime_agent.EventMapper.{MapperState, AssistantMessage, Block, Content, plain, blocks}
use fleet_prime_agent.EventMapper.Episodes.{claim, fleet_index_for}
use fleet_prime_agent.EventMapper.Tools.{is_call}
use fleet_prime_agent.EventMapper.Finalize.{
  Building, is_text_part, finalize_assistant_message, add_content, add_blocks, add_block, add_text,
  add_thinking, add_call, add_tool, block_index, index_as,
}
use fleet_prime_agent.EventMapper.Lives.Kept.{Keeps, Keeps-refl, Keeps-trans}

pub member-add_old :
    (n m : ℕ) (ms : List ℕ) → member n ms ≡ true → member n (NatMap.add m ms) ≡ true
member-add_old n m ms h = rw (member-add, h) (or-true (nat_eq m n))
  where
    or-true : (b : Bool) → (b || true) ≡ true
    or-true true = refl
    or-true false = refl

pub claim-Keeps : (i index : ℕ) (s : MapperState) → Keeps s (claim i index s)
unfolding claim
claim-Keeps i index s = record { claims = λ n h. member-add_old n index s.claimed h; opens = refl }

index_as-Keeps : (o : Option ℕ) (s : MapperState) (i : ℕ) → Keeps s (index_as o s i).0
unfolding index_as
index_as-Keeps (some index) s i = Keeps-refl s
index_as-Keeps none s i = claim-Keeps i (fleet_index_for s i) s

add_thinking-Keeps :
    (b : Building) (i : ℕ) (t : Option String) → Keeps b.state (add_thinking b i t).state
unfolding add_thinking block_index
add_thinking-Keeps b i t = index_as-Keeps (NatMap.get i b.state.fleet_index) b.state i

add_tool-Keeps :
    (b : Building) (id : String) (o : Option ToolPart) → Keeps b.state (add_tool b id o).state
unfolding add_tool
add_tool-Keeps b id none = Keeps-refl b.state
add_tool-Keeps b id (some part) = Keeps-refl b.state

add_call-Keeps : (b : Building) (o : Option String) → Keeps b.state (add_call b o).state
unfolding add_call
add_call-Keeps b none = Keeps-refl b.state
add_call-Keeps b (some id) = add_tool-Keeps b id (find (is_call id) b.state.tool_parts)

add_text-Keeps : (b : Building) (current t : String) → Keeps b.state (add_text b current t).state
unfolding add_text
add_text-Keeps b current t = elim (Bool-cases (t == "" || any is_text_part b.parts)) [
  | inl skipped ↦ rw skipped (Keeps-refl b.state)
  | inr added ↦ rw added (Keeps-refl b.state)
]

add_block-Keeps : (b : Building) (i : ℕ) (block : Block) → Keeps b.state (add_block b i block).state
unfolding add_block
add_block-Keeps b i (Block.text none) = Keeps-refl b.state
add_block-Keeps b i (Block.text (some t)) = add_text-Keeps b b.state.current_text t
add_block-Keeps b i (Block.thinking t) = add_thinking-Keeps b i t
add_block-Keeps b i (Block.image x y) = Keeps-refl b.state
add_block-Keeps b i (Block.tool_call id name arguments) = add_call-Keeps b (truthy? id)
add_block-Keeps b i Block.other = Keeps-refl b.state

add_blocks-Keeps :
    (b : Building) (i : ℕ) (bs : List Block) → Keeps b.state (add_blocks b i bs).state
unfolding add_blocks
add_blocks-Keeps b i [] = Keeps-refl b.state
add_blocks-Keeps b i (block ∷ rest) =
    Keeps-trans (add_block-Keeps b i block) (add_blocks-Keeps (add_block b i block) (suc i) rest)

add_content-Keeps :
    (b : Building) (m : Option AssistantMessage) → Keeps b.state (add_content b m).state
unfolding add_content
add_content-Keeps b none = Keeps-refl b.state
add_content-Keeps b (some m) = of_content m.content
  where
    of_content :
        (c : Content)
        → Keeps b.state
            (elim c as (λ _. Building) [ plain s ↦ b | blocks bs ↦ add_blocks b 0 bs ]).state
    of_content (plain s) = Keeps-refl b.state
    of_content (blocks bs) = add_blocks-Keeps b 0 bs

pub finalize-Keeps : (s : MapperState) → Keeps s (finalize_assistant_message s).0
unfolding finalize_assistant_message
finalize-Keeps s =
    add_content-Keeps (record { state = s; parts = []; emitted = [] }) s.assistant_message
