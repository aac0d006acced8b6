-- ===== src/Thread/Keyed.antt =====
-- The reducers of references that a stable id names: artifacts, memories and delegations.
use poor_travel_agent.Base.{
  ℕ, String, Bool, ◌&&◌, ◌||◌, not, Option, none, some, List, [], ◌∷◌, ◌++◌, map, last_n, ◌==◌,
  if◌then◌else◌,
}
use poor_travel_agent.Base.Effect.{Result, ok, raised}
use poor_travel_agent.Base.Dict.{Dict, lookup, put}
use poor_travel_agent.Thread.Update.{Error, value_error, is_given}
use poor_travel_agent.Thread.Goal.{is_one_of, is_other}

abbrev pub items_or_empty {ℓ} : {A : Type ℓ} → Option (List A) → List A
items_or_empty none = []
items_or_empty (some xs) = xs

module _ {A : Type 0} where
  -- one item into the dict: refused, left out, or set under its id
  abbrev pub set_accepted : Dict A → Result Error (Option (String × A)) → Result Error (Dict A)
  set_accepted d (raised e) = raised e
  set_accepted d (ok none) = ok d
  set_accepted d (ok (some (k, v))) = ok (put k v d)

  abbrev pub values : Dict A → List A
  values d = map (λ p. p.1) d

  abbrev pub last_values : ℕ → Result Error (Dict A) → Result Error (List A)
  last_values cap (ok d) = ok (last_n cap (values d))
  last_values cap (raised e) = raised e

module _ {A : Type 0} (accept : Dict A → A → Result Error (Option (String × A))) where
  -- `by_id` and `order`: a dict whose items stand in the order of their first insertion
  unfoldable pub collect : Dict A → List A → Result Error (Dict A)
  collect d [] = ok d
  collect d (x ∷ xs) = elim (set_accepted d (accept d x)) [
    | ok e ↦ collect e xs
    | raised e ↦ raised e
  ]

  unfoldable pub merge_by_id : ℕ → Option (List A) → Option (List A) → Result Error (List A)
  merge_by_id cap existing none = ok (last_n cap (items_or_empty existing))
  merge_by_id cap existing (some []) = ok []
  merge_by_id cap existing (some (x ∷ xs)) =
      last_values cap (collect [] (items_or_empty existing ++ x ∷ xs))

-- An id that must be there, and not empty.
abbrev by_key : {A : Type 0} → Option String → A → Result Error (Option (String × A))
by_key none item = raised value_error
by_key (some k) item = if k == "" then raised value_error else ok (some (k, item))

pub record ArtifactRef : Type 0 where
  pub artifact_id : Option String
  pub kind : Option String
  pub path : Option String
  pub label : Option String

unfoldable pub accept_artifact :
    Dict ArtifactRef → ArtifactRef → Result Error (Option (String × ArtifactRef))
accept_artifact d item = by_key item.artifact_id item

abbrev pub max_artifacts : ℕ
max_artifacts = 100

unfoldable pub merge_artifacts :
    Option (List ArtifactRef) → Option (List ArtifactRef) → Result Error (List ArtifactRef)
merge_artifacts existing new = merge_by_id accept_artifact max_artifacts existing new

pub record MemoryRef : Type 0 where
  pub memory_id : Option String
  pub topic : Option String
  pub summary : Option String
  pub revision : Option String

unfoldable pub accept_memory :
    Dict MemoryRef → MemoryRef → Result Error (Option (String × MemoryRef))
accept_memory d item = by_key item.memory_id item

abbrev pub max_memory_refs : ℕ
max_memory_refs = 32

unfoldable pub merge_memory_refs :
    Option (List MemoryRef) → Option (List MemoryRef) → Result Error (List MemoryRef)
merge_memory_refs existing new = merge_by_id accept_memory max_memory_refs existing new

-- `contents` stands for the keys that no reducer reads.
pub record DelegationEntry : Type 0 where
  pub id : Option String
  pub status : Option String
  pub created_at : Option String
  pub contents : Dict String

abbrev pub terminal_delegation_statuses : List String
terminal_delegation_statuses = "succeeded" ∷ "failed" ∷ "cancelled" ∷ "timed_out" ∷ []

abbrev pub is_ended : Option String → Bool
is_ended status = is_one_of terminal_delegation_statuses status

abbrev keep_created_at : DelegationEntry → DelegationEntry → DelegationEntry
keep_created_at previous entry =
    if is_given previous.created_at && not (is_given entry.created_at)
    then record {
      id = entry.id;
      status = entry.status;
      created_at = previous.created_at;
      contents = entry.contents;
    }
    else entry

abbrev pub update_delegation :
    String
    → Option DelegationEntry
    → DelegationEntry
    → Result Error (Option (String × DelegationEntry))
update_delegation k none entry = ok (some (k, entry))
update_delegation k (some previous) entry =
    if is_ended previous.status && not (is_ended entry.status)
    then ok none
    else (if is_ended previous.status
          && is_ended entry.status
          && is_other previous.status entry.status
        then raised value_error
        else ok (some (k, keep_created_at previous entry)))

abbrev pub accept_keyed :
    Option String
    → Dict DelegationEntry
    → DelegationEntry
    → Result Error (Option (String × DelegationEntry))
accept_keyed none d entry = raised value_error
accept_keyed (some k) d entry =
    if k == "" || not (is_given entry.status)
    then raised value_error
    else update_delegation k (lookup k d) entry

unfoldable pub accept_delegation :
    Dict DelegationEntry → DelegationEntry → Result Error (Option (String × DelegationEntry))
accept_delegation d entry = accept_keyed entry.id d entry

abbrev pub max_delegations : ℕ
max_delegations = 50

unfoldable pub merge_delegations :
    Option (List DelegationEntry)
    → Option (List DelegationEntry)
    → Result Error (List DelegationEntry)
merge_delegations existing new = merge_by_id accept_delegation max_delegations existing new
