-- ===== src/SessionTree/Context/Indexed.antt =====
-- Which context entry an index points at.
use fleet_prime_agent.Prelude.{
  ℕ, suc, ◌+◌, ◌≡◌, refl, ap, ◌∙◌, String, Bool, true, false, ◌⊎◌, inl, inr, List, [], ◌∷◌, Option,
  none, some, arith, ◌==◌, ==_iff, ==_refl, ◌||◌, ◌&&◌, get_or, get_elem?, any, Bool-cases,
  Option-cases, not, ◌<◌, nat_eq,
}
use fleet_prime_agent.Prelude.Dict.{Dict, lookup, insert, lookup-insert}
use fleet_prime_agent.SessionTree.{Entry, is_text, message_role}
use fleet_prime_agent.SessionTree.Context.{
  Tables, is_hidden, is_assistant_entry, is_tool_result, calls_of, result_call, own_all, owner_of,
  note_entry, note_from, context_entries, build_message_index_by_entry_id,
}

-- The entry made the tool call.
abbrev pub made : String → Entry → Bool
made call e = is_assistant_entry e && any (λ c. c == call) (calls_of e)

-- A shown entry that made the tool call.
abbrev pub shows_call : String → Entry → Bool
shows_call call e = not (is_hidden e) && made call e

own_all-none :
    (call : String) (calls : List String) (i : ℕ) (owners : Dict ℕ)
    → lookup call (own_all calls i owners) ≡ none
    → (lookup call owners ≡ none) × (any (λ c. c == call) calls ≡ false)
unfolding own_all
own_all-none call [] i owners h = (h, refl)
own_all-none call (c ∷ calls) i owners h =
    let (before, apart) = own_all-none call calls i (insert c i owners) h in
    (ground (arith, lookup-insert c call i owners), ground (arith, lookup-insert c call i owners))

no_result :
    (role : Option String) → is_text "assistant" role ≡ true → is_text "toolResult" role ≡ false
no_result none h = absurd (cc)
no_result (some t) h = let equal : t ≡ "assistant" = (==_iff t "assistant").0 h in rw equal refl

and_right : (a b : Bool) → (a && b) ≡ true → b ≡ true
and_right true b h = h
and_right false b h = absurd (cc)

and-false : (a : Bool) {b : Bool} → b ≡ false → (a && b) ≡ false
and-false true h = h
and-false false h = refl

assistant-result : (e : Entry) → is_assistant_entry e ≡ true → is_tool_result e ≡ false
unfolding is_assistant_entry is_tool_result
assistant-result e h =
    and-false (e.kind == "message")
      (no_result (message_role e.message) (and_right (e.kind == "message") _ h))

or-true : (a : Bool) {b : Bool} → b ≡ true → (a || b) ≡ true
or-true true h = refl
or-true false h = h

plus_zero : (i : ℕ) → i ≡ i + 0
plus_zero i = omega arith

plus_one : (i k : ℕ) → i + 1 + k ≡ i + suc k
plus_one i k = omega arith

zero_plus : (k : ℕ) → 0 + k ≡ k
zero_plus k = omega arith

module _ (shown : List Entry) where
  -- Index `j` of the shown entries is an assistant's message that made the call.
  abbrev pub Owns : String → ℕ → Type 0
  Owns call j = (e : Entry) × (get_elem? shown j ≡ some e) × (made call e ≡ true)

  -- No shown entry before the index made the tool call.
  abbrev pub Free : String → ℕ → Type 0
  Free call i = (k : ℕ) (o : Entry) → get_elem? shown k ≡ some o → k < i → shows_call call o ≡ false

  -- The entry is no result of a tool, or one whose call was made by none before it.
  abbrev pub StandsAlone : Entry → ℕ → Type 0
  StandsAlone e i =
      (is_tool_result e ≡ false)
      ⊎ (result_call e ≡ none)
      ⊎ ((call : String) × (result_call e ≡ some call) × Free call i)

  -- Index `j` is the entry with the id, which stands alone, or the message that made the call which the entry, the result of a
  -- tool among the shown ones, answers.
  abbrev pub PointsAt : String → ℕ → Type 0
  PointsAt id j =
      ((e : Entry) × (get_elem? shown j ≡ some e) × (e.id ≡ id) × StandsAlone e j)
      ⊎ ((k : ℕ) × (result : Entry) × (get_elem? shown k ≡ some result)
          × (result.id ≡ id)
          × (is_tool_result result ≡ true)
          × (call : String) × (result_call result ≡ some call)
          × Owns call j)

  abbrev AllOwn : Dict ℕ → Type 0
  AllOwn owners = (call : String) (j : ℕ) → lookup call owners ≡ some j → Owns call j

  -- A call with no owner was made by none of the entries before the index.
  abbrev AllFree : ℕ → Dict ℕ → Type 0
  AllFree i owners = (call : String) → lookup call owners ≡ none → Free call i

  abbrev AllPoint : Dict ℕ → Type 0
  AllPoint index = (id : String) (j : ℕ) → lookup id index ≡ some j → PointsAt id j

  -- Writing one key keeps what holds of every key.
  AllPoint-insert :
      (index : Dict ℕ) (id : String) (i : ℕ)
      → PointsAt id i
      → AllPoint index
      → AllPoint (insert id i index)
  AllPoint-insert index id i here h asked j found = elim (Bool-cases (id == asked)) [
    | inl same ↦
        let at : i ≡ j = ground (arith, lookup-insert id asked i index) in
        rw (← (==_iff id asked).0 same, ← at) here
    | inr other ↦ h asked j (ground (arith, lookup-insert id asked i index))
  ]

  AllOwn-insert :
      (owners : Dict ℕ) (call : String) (i : ℕ)
      → Owns call i
      → AllOwn owners
      → AllOwn (insert call i owners)
  AllOwn-insert owners call i here h asked j found = elim (Bool-cases (call == asked)) [
    | inl same ↦
        let at : i ≡ j = ground (arith, lookup-insert call asked i owners) in
        rw (← (==_iff call asked).0 same, ← at) here
    | inr other ↦ h asked j (ground (arith, lookup-insert call asked i owners))
  ]

  -- Every call of a list is among the calls of the entry at `i`.
  abbrev Calls : List String → ℕ → Type 0
  Calls [] i = Unit
  Calls (call ∷ calls) i = Owns call i × Calls calls i

  AllOwn-own_all :
      (calls : List String) (i : ℕ) (owners : Dict ℕ)
      → Calls calls i
      → AllOwn owners
      → AllOwn (own_all calls i owners)
  unfolding own_all
  AllOwn-own_all [] i owners mine h = h
  AllOwn-own_all (call ∷ calls) i owners (first, mine) h =
      AllOwn-own_all calls i (insert call i owners) mine (AllOwn-insert owners call i first h)

  Calls-of :
      (e : Entry) (i : ℕ) (calls : List String)
      → get_elem? shown i ≡ some e
      → ((call : String) → any (λ c. c == call) calls ≡ true → made call e ≡ true)
      → Calls calls i
  Calls-of e i [] at among = tt
  Calls-of e i (call ∷ calls) at among = (
    (e, at, among call (rw (==_refl call) refl)),
    Calls-of e i calls at (λ c h. among c (or-true (call == c) h)),
  )

  Free-next :
      (call : String) (e : Entry) (i : ℕ)
      → get_elem? shown i ≡ some e
      → shows_call call e ≡ false
      → Free call i
      → Free call (i + 1)
  Free-next call e i at quiet h k o there below = elim (Bool-cases (nat_eq k i)) [
    | inl last ↦
        let same : k ≡ i = ground arith in
        let here : get_elem? shown k ≡ some e = rw same at in
        let equal : o ≡ e = cc in rw equal quiet
    | inr earlier ↦ h k o there (ground arith)
  ]

  -- The tables once the entries before the index are noted.
  abbrev Good : ℕ → Tables → Type 0
  Good i (owners, index) = AllOwn owners × AllFree i owners × AllPoint index

  owner_of-PointsAt :
      (owners : Dict ℕ) (e : Entry) (i : ℕ) (call : Option String)
      → get_elem? shown i ≡ some e
      → result_call e ≡ call
      → is_tool_result e ≡ true
      → AllOwn owners
      → AllFree i owners
      → PointsAt e.id (get_or (owner_of call owners) i)
  unfolding owner_of
  owner_of-PointsAt owners e i none at answers result h free = inl (e, at, refl, inr (inl answers))
  owner_of-PointsAt owners e i (some call) at answers result h free =
      elim (Option-cases (lookup call owners)) [
        | inl unowned ↦ rw unowned (inl (e, at, refl, inr (inr (call, answers, free call unowned))))
        | inr (j, owned) ↦ rw owned (inr (i, e, at, refl, result, call, answers, h call j owned))
      ]

  note_entry-Good :
      (i : ℕ) (tables : Tables) (e : Entry)
      → get_elem? shown i ≡ some e
      → Good i tables
      → Good (i + 1) (note_entry i tables e)
  unfolding note_entry
  note_entry-Good i (owners, index) e at (own, free, point) = elim (Bool-cases (is_hidden e)) [
    | inl hidden ↦
        rw hidden (own, λ call h. Free-next call e i at (rw hidden refl) (free call h), point)
    | inr visible ↦ elim (Bool-cases (is_assistant_entry e)) [
      | inl assistant ↦
          let itself : PointsAt e.id i = inl (e, at, refl, inl (assistant-result e assistant)) in
          rw (visible, assistant)
            (
              AllOwn-own_all (calls_of e) i owners
                  (Calls-of e i (calls_of e) at (λ call h. rw (assistant, h) refl)) own,
              λ call h.
                  (let (before, apart) = own_all-none call (calls_of e) i owners h in
                    Free-next call e i at (rw (visible, assistant, apart) refl) (free call before)),
              AllPoint-insert index e.id i itself point,
            )
      | inr other ↦
          let still = λ (call : String) (h : lookup call owners ≡ none).
            Free-next call e i at (rw (visible, other) refl) (free call h) in
          elim (Bool-cases (is_tool_result e)) [
            | inl result ↦
                rw (visible, other, result)
                  (
                    own,
                    still,
                    AllPoint-insert index e.id _
                        (owner_of-PointsAt owners e i (result_call e) at refl result own free)
                        point,
                  )
            | inr plain ↦
                rw (visible, other, plain)
                  (own, still, AllPoint-insert index e.id i (inl (e, at, refl, inl plain)) point)
          ]
    ]
  ]

  note_from-Good :
      (i : ℕ) (tables : Tables) (entries : List Entry)
      → ((k : ℕ) → get_elem? shown (i + k) ≡ get_elem? entries k)
      → Good i tables
      → AllPoint (note_from i tables entries).1
  unfolding note_from
  note_from-Good i tables [] located h = h.2
  note_from-Good i tables (e ∷ entries) located h =
      let here : get_elem? shown i ≡ some e = ap (get_elem? shown) (plus_zero i) ∙ located 0 in
      note_from-Good (i + 1) (note_entry i tables e) entries
        (λ k. ap (get_elem? shown) (plus_one i k) ∙ located (suc k))
        (note_entry-Good i tables e here h)

-- The index of an entry of the active branch points, among those the transcript shows, at the message of the
-- assistant that made the call where the entry is the result of a tool whose call was made before it, and at the
-- entry itself only where it is no such result.
pub lookup-PointsAt :
    (entries : List Entry) (id : String) (j : ℕ)
    → lookup id (build_message_index_by_entry_id entries) ≡ some j
    → PointsAt (context_entries entries) id j
unfolding build_message_index_by_entry_id lookup
lookup-PointsAt entries id j found =
    let shown : List Entry = context_entries entries in
    let points =
      note_from-Good shown 0 ([], []) shown (λ k. ap (get_elem? shown) (zero_plus k))
        (
          (λ call i h. absurd (cc)),
          (λ call none_yet k o there below. absurd (omega arith)),
          (λ key i h. absurd (cc)),
        ) in
    points id j found
