-- ===== src/Chat/Parts/Upsert.antt =====
-- A part that is delivered again changes nothing.
use fleet_prime_agent.Prelude.{
  ℕ, ◌≡◌, refl, sym, ap, ◌∙◌, String, Bool, true, false, List, Option, none, some, arith, ◌==◌,
  ==_refl, if◌then◌else◌, or_else, length, find_index, insert_at, Option-cases, inl, inr,
  modify_idem, find_index-modify, find_index-insert_at, modify-insert_at, find_index-lt,
  insert_at-length, ◌≤◌,
}
use fleet_prime_agent.Prelude.Text.{truthy?}
use fleet_prime_agent.Chat.{Part, payload, tool, PayloadPart, ToolPart}
use fleet_prime_agent.Chat.Parts.{
  same_text?, is_text_part, merge_tool, is_same_tool, replace_tool, insert_tool, put_tool,
  upsert_tool_part, match_by, payloads_match, merge_payload, is_same_payload, replace_payload,
  put_payload, upsert_payload_part,
}

or_else_idem {ℓ} : {A : Type ℓ} (a b : Option A) → or_else a (or_else a b) ≡ or_else a b
or_else_idem none b = refl
or_else_idem (some a) b = refl

or_else_self {ℓ} : {A : Type ℓ} (a : Option A) → or_else a a ≡ a
or_else_self none = refl
or_else_self (some a) = refl

same_text?_refl : (a : Option String) → same_text? a a ≡ true
same_text?_refl none = refl
same_text?_refl (some a) = ==_refl a

merge_tool_idem : (part e : ToolPart) → merge_tool part (merge_tool part e) ≡ merge_tool part e
unfolding merge_tool
merge_tool_idem part e = simp (or_else_idem)

merge_tool_self : (part : ToolPart) → merge_tool part part ≡ part
unfolding merge_tool
merge_tool_self part = simp (or_else_self)

replace_tool_idem :
    (part : ToolPart) (x : Part) → replace_tool part (replace_tool part x) ≡ replace_tool part x
unfolding replace_tool
replace_tool_idem part (tool e) = ap tool (merge_tool_idem part e)
replace_tool_idem part _ = ap tool (merge_tool_self part)

same_text?-or_else :
    (current part : Option String)
    → same_text? current part ≡ true
    → same_text? (or_else part current) part ≡ true
same_text?-or_else none none e = refl
same_text?-or_else (some a) none e = absurd (cc)
same_text?-or_else none (some b) e = absurd (cc)
same_text?-or_else (some a) (some b) e = ==_refl b

is_same_tool-replace_tool :
    (part : ToolPart) (x : Part)
    → is_same_tool part x ≡ true
    → is_same_tool part (replace_tool part x) ≡ true
unfolding is_same_tool replace_tool merge_tool
is_same_tool-replace_tool part (tool e) h =
    ground (arith, same_text?-or_else e.tool_call_id part.tool_call_id, ==_refl part.name)
is_same_tool-replace_tool part _ h = absurd (cc)

is_same_tool_self : (part : ToolPart) → is_same_tool part (tool part) ≡ true
unfolding is_same_tool
is_same_tool_self part = rw (same_text?_refl part.tool_call_id, ==_refl part.name)

-- An insertion at an index, or at the end.
insert_tool-insert_at :
    (o : Option ℕ) (parts : List Part) (part : ToolPart)
    → find_index is_text_part parts ≡ o
    → (i : ℕ) × (i ≤ length parts) × (insert_tool o parts part ≡ insert_at i (tool part) parts)
unfolding insert_tool
insert_tool-insert_at none parts part e =
    (length parts, omega arith, sym (insert_at-length (tool part) parts))
insert_tool-insert_at (some i) parts part e =
    (i, omega (arith, find_index-lt is_text_part parts i e), refl)

-- To upsert a tool part twice is to upsert it once: a redelivered frame changes nothing.
pub upsert_tool_part_idem :
    (parts : List Part) (part : ToolPart)
    → upsert_tool_part (upsert_tool_part parts part) part ≡ upsert_tool_part parts part
unfolding upsert_tool_part
upsert_tool_part_idem parts part = elim (Option-cases (find_index (is_same_tool part) parts)) [
  | inl new ↦
      let (i, within, at) = insert_tool-insert_at (find_index is_text_part parts) parts part refl in
      rw
        (
          new,
          put_tool,
          at,
          find_index-insert_at (is_same_tool part) (tool part) parts i within new
              (is_same_tool_self part),
        )
        (modify-insert_at (replace_tool part) (tool part) parts i within
          ∙ ap (λ x. insert_at i x parts) (ap tool (merge_tool_self part)))
  | inr (i, found) ↦
      rw
        (
          found,
          put_tool,
          find_index-modify (is_same_tool part) (replace_tool part) parts i
              (is_same_tool-replace_tool part) found,
        )
        (modify_idem i (replace_tool part) parts (replace_tool_idem part))
]

merge_payload_idem :
    (part e : PayloadPart) → merge_payload part (merge_payload part e) ≡ merge_payload part e
unfolding merge_payload
merge_payload_idem part e = simp (or_else_idem)

merge_payload_self : (part : PayloadPart) → merge_payload part part ≡ part
unfolding merge_payload
merge_payload_self part = simp (or_else_self)

replace_payload_idem :
    (part : PayloadPart) (x : Part)
    → replace_payload part (replace_payload part x) ≡ replace_payload part x
unfolding replace_payload
replace_payload_idem part (payload e) = ap payload (merge_payload_idem part e)
replace_payload_idem part _ = ap payload (merge_payload_self part)

-- Two payloads of one kind and title match, whatever ids they carry, if their ids are equal or one is
-- not set.
match_by-merged :
    (left right : PayloadPart) (own part_id : Option String)
    → left.kind ≡ right.kind
    → left.title ≡ right.title
    → match_by left right (truthy? (or_else part_id own)) (truthy? part_id) ≡ true
unfolding match_by
match_by-merged left right own none k t = by_own (truthy? own)
  where
    by_own : (o : Option String) → match_by left right o none ≡ true
    by_own none = rw (k, t, ==_refl right.kind, ==_refl right.title)
    by_own (some a) = rw (k, t, ==_refl right.kind, ==_refl right.title)
match_by-merged left right own (some b) k t = by_text (b == "") refl
  where
    by_text :
        (e : Bool)
        → (b == "") ≡ e
        → match_by left right (if e then none else some b) (if e then none else some b) ≡ true
    by_text true e = rw (k, t, ==_refl right.kind, ==_refl right.title)
    by_text false e = ==_refl b

is_same_payload-replace_payload :
    (part : PayloadPart) (x : Part)
    → is_same_payload part x ≡ true
    → is_same_payload part (replace_payload part x) ≡ true
unfolding is_same_payload replace_payload merge_payload payloads_match
is_same_payload-replace_payload part (payload e) h =
    match_by-merged (merge_payload part e) part e.id part.id refl refl
is_same_payload-replace_payload part _ h = absurd (cc)

is_same_payload_self : (part : PayloadPart) → is_same_payload part (payload part) ≡ true
unfolding is_same_payload payloads_match
is_same_payload_self part =
    ap (λ o. match_by part part (truthy? o) (truthy? part.id)) (sym (or_else_self part.id))
    ∙ match_by-merged part part part.id part.id refl refl

-- To upsert a payload part twice is to upsert it once.
pub upsert_payload_part_idem :
    (parts : List Part) (part : PayloadPart)
    → upsert_payload_part (upsert_payload_part parts part) part ≡ upsert_payload_part parts part
unfolding upsert_payload_part
upsert_payload_part_idem parts part =
    elim (Option-cases (find_index (is_same_payload part) parts)) [
      | inl new ↦
          let at = sym (insert_at-length (payload part) parts) in
          rw
            (
              new,
              put_payload,
              at,
              find_index-insert_at (is_same_payload part) (payload part) parts (length parts)
                  (omega arith) new (is_same_payload_self part),
            )
            (modify-insert_at (replace_payload part) (payload part) parts (length parts)
                (omega arith)
              ∙ ap (λ x. insert_at (length parts) x parts) (ap payload (merge_payload_self part)))
      | inr (i, found) ↦
          rw
            (
              found,
              put_payload,
              find_index-modify (is_same_payload part) (replace_payload part) parts i
                  (is_same_payload-replace_payload part) found,
            )
            (modify_idem i (replace_payload part) parts (replace_payload_idem part))
    ]
