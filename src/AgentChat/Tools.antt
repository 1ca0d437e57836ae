-- ===== src/AgentChat/Tools.antt =====
-- `expectedToolResults`: the map from a tool's name to the ids that wait for a result.
use priority_kb.Base.{
  Text, text_eq, text_eq→eq, text_eq_refl, Bool-cases, List, [], ◌∷◌, ◌++◌, if◌then◌else◌, ◌≡◌,
  refl, sym, ◌∙◌, inl, inr, arith, append_assoc, append-nil,
}
use priority_kb.AgentChat.State.{AssistantBlock}

-- `map.get(name)`, with the empty queue for a missing name.
unfoldable pub queue : Text → List (Text × List Text) → List Text
queue name [] = []
queue name ((k, ids) ∷ m) = if text_eq k name then ids else queue name m

-- `map.set(name, ids)`.
unfoldable pub set_queue : Text → List Text → List (Text × List Text) → List (Text × List Text)
set_queue name ids [] = (name, ids) ∷ []
set_queue name ids ((k, old) ∷ m) =
    if text_eq k name then (k, ids) ∷ m else (k, old) ∷ set_queue name ids m

-- The loop of `applyDone` that harvests the tool uses of a turn.
unfoldable pub harvest :
    {J : Type 0} → List (AssistantBlock J) → List (Text × List Text) → List (Text × List Text)
harvest [] m = m
harvest (AssistantBlock.text t ∷ bs) m = harvest bs m
harvest (AssistantBlock.tool_use id name input ∷ bs) m =
    harvest bs (set_queue name (queue name m ++ id ∷ []) m)

pub queue-set_queue :
    (name other : Text) (ids : List Text) (m : List (Text × List Text))
    → queue other (set_queue name ids m) ≡ (if text_eq name other then ids else queue other m)
unfolding queue set_queue
queue-set_queue name other ids [] = refl
queue-set_queue name other ids ((k, old) ∷ m) = elim (Bool-cases (text_eq k name)) [
  | inl e ↦ rw (text_eq→eq k name e, text_eq_refl name) (ground arith)
  | inr e ↦
      rw e (
        ground (arith, queue-set_queue name other ids m, text_eq→eq k other, text_eq→eq name other))
]

-- The ids of a turn's uses of one tool, in order.
unfoldable pub ids_named : {J : Type 0} → Text → List (AssistantBlock J) → List Text
ids_named name [] = []
ids_named name (AssistantBlock.text t ∷ bs) = ids_named name bs
ids_named name (AssistantBlock.tool_use id n input ∷ bs) =
    if text_eq n name then id ∷ ids_named name bs else ids_named name bs

pub queue-harvest :
    {J : Type 0} (name : Text) (bs : List (AssistantBlock J)) (m : List (Text × List Text))
    → queue name (harvest bs m) ≡ queue name m ++ ids_named name bs
unfolding harvest ids_named
queue-harvest name [] m = sym (append-nil _)
queue-harvest name (AssistantBlock.text t ∷ bs) m = queue-harvest name bs m
queue-harvest name (AssistantBlock.tool_use id n input ∷ bs) m =
    queue-harvest name bs (set_queue n (queue n m ++ id ∷ []) m)
    ∙ elim (Bool-cases (text_eq n name)) [
      | inl e ↦ rw (queue-set_queue, e) (rw (text_eq→eq n name e) (append_assoc _ (id ∷ []) _))
      | inr e ↦ rw (queue-set_queue, e) refl
    ]
