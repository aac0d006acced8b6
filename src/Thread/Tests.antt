-- ===== src/Thread/Tests.antt =====
-- The theorems on the reducers at concrete updates.
use poor_travel_agent.Base.{◌++◌, String, ◌≡◌, refl, true, false, Option, none, some, List, [], ◌∷◌}
use poor_travel_agent.Base.Effect.{ok}
use poor_travel_agent.Base.Text.{codes, strip, is_space}
use poor_travel_agent.Policy.Paths.{Text, distinct, same_text}
use poor_travel_agent.Thread.Tools.{
  PromotedTools, max_promoted_tools, cleaned, joined, merge_promoted_tools, IsClean,
  promoted_names-IsClean,
}
use poor_travel_agent.Thread.Evidence.{merge_evidence_refs, merge_evidence_fingerprints}
use poor_travel_agent.Thread.Order.{evidence_order_is_irrelevant}
use poor_travel_agent.Thread.Update.{overlay, is_given, differ, Kept, reduce}
use poor_travel_agent.Thread.Binding.{
  ThreadDataState, identity_conflict, merge_thread_data, SandboxState, merge_sandbox, sandbox_of,
  sandbox_is_final, identity-Kept, bound_to, owner_changes_through_empty,
}
use poor_travel_agent.Base.Dict.{lookup, put}
use poor_travel_agent.Thread.Keyed.{
  collect, merge_by_id, ArtifactRef, accept_artifact, merge_artifacts, MemoryRef, accept_memory,
  merge_memory_refs, DelegationEntry, accept_delegation, merge_delegations,
}
use poor_travel_agent.Thread.Unique.{
  is_unique, IsKeyed, merge_artifacts-IsKeyed, merge_memory_refs-IsKeyed, merge_delegations-IsKeyed,
}
use poor_travel_agent.Base.{length, ◌≤◌}
use poor_travel_agent.Base.Json.{pos}
use poor_travel_agent.Thread.Skills.{
  SkillEntry, SkillRef, normalize_skill, move_to_end, collect_skills, merge_skill_context,
  merge_skill_context_unique,
}
use poor_travel_agent.Base.Dict.{Dict}
use poor_travel_agent.Thread.Keyed.{terminal_delegation_statuses}
use poor_travel_agent.Thread.Ended.{HasStatus, ended_status_stays}
use poor_travel_agent.Thread.Goal.{
  is_one_of, is_other, decide_status, GoalState, merge_goal, ApprovalContext, approval_conflict,
  merge_approval_context, terminal_goal_statuses, terminal_approval_statuses, goal_status,
  approval_status, terminal_goal_stays, terminal_approval_stays,
}

abbrev sandbox : Option String → SandboxState
sandbox id = record { sandbox_id = id }

abbrev sandbox_updates : List (Option SandboxState)
sandbox_updates = none ∷ some (sandbox none) ∷ some (sandbox (some "box-1")) ∷ []

sandbox_is_final-accepted :
    reduce merge_sandbox (some (sandbox (some "box-1"))) sandbox_updates
    ≡ ok (some (sandbox (some "box-1")))
unfolding reduce merge_sandbox
sandbox_is_final-accepted = refl

sandbox_is_final_example : sandbox_of (some (sandbox (some "box-1"))) ≡ some "box-1"
sandbox_is_final_example =
    sandbox_is_final sandbox_updates (some (sandbox (some "box-1"))) (some (sandbox (some "box-1")))
      "box-1" refl sandbox_is_final-accepted

abbrev moved : ThreadDataState
moved = record (bound_to "alice") { workspace_path = some (some "/work") }

identity-Kept-accepted : merge_thread_data (some (bound_to "alice")) (some moved) ≡ ok (some moved)
unfolding merge_thread_data identity_conflict differ is_given overlay
identity-Kept-accepted = refl

identity-Kept_example :
    (identity_conflict (bound_to "alice") moved ≡ false)
    × Kept (some "alice") (some "alice")
    × Kept none none
    × Kept none none
    × Kept none (some "/work")
identity-Kept_example = identity-Kept (bound_to "alice") moved moved identity-Kept-accepted

owner_changes_through_empty_example :
    reduce merge_thread_data
      (some (bound_to "alice"))
      (some (bound_to "") ∷ some (bound_to "bob") ∷ [])
    ≡ ok (some (bound_to "bob"))
owner_changes_through_empty_example = owner_changes_through_empty "alice" "bob"

abbrev goal : String → GoalState
goal status = record {
  goal_id = some "g1";
  description = some "plan a trip";
  status = some status;
  updated_at = none;
}

abbrev goal_updates : List (Option GoalState)
goal_updates = none ∷ some (goal "active") ∷ some (goal "succeeded") ∷ []

terminal_goal_stays-terminal : is_one_of terminal_goal_statuses (some "succeeded") ≡ true
unfolding is_one_of
terminal_goal_stays-terminal = refl

terminal_goal_stays-accepted :
    reduce merge_goal (some (goal "succeeded")) goal_updates ≡ ok (some (goal "succeeded"))
unfolding reduce merge_goal differ is_given decide_status is_one_of is_other overlay
terminal_goal_stays-accepted = refl

terminal_goal_stays_example : goal_status (some (goal "succeeded")) ≡ some "succeeded"
terminal_goal_stays_example =
    terminal_goal_stays goal_updates (some (goal "succeeded")) (some (goal "succeeded"))
      (some "succeeded") terminal_goal_stays-terminal refl terminal_goal_stays-accepted

abbrev approval : String → ApprovalContext
approval status = record {
  request_id = some "r1";
  tool_call_id = some "t1";
  args_digest = some "d1";
  status = some status;
  decided_by = none;
}

abbrev approval_updates : List (Option ApprovalContext)
approval_updates = some (approval "pending") ∷ some (approval "approved") ∷ []

terminal_approval_stays-terminal : is_one_of terminal_approval_statuses (some "approved") ≡ true
unfolding is_one_of
terminal_approval_stays-terminal = refl

terminal_approval_stays-accepted :
    reduce merge_approval_context (some (approval "approved")) approval_updates
    ≡ ok (some (approval "approved"))
unfolding reduce merge_approval_context approval_conflict differ is_given decide_status is_one_of
    is_other overlay
terminal_approval_stays-accepted = refl

terminal_approval_stays_example : approval_status (some (approval "approved")) ≡ some "approved"
terminal_approval_stays_example =
    terminal_approval_stays approval_updates (some (approval "approved"))
      (some (approval "approved")) (some "approved") terminal_approval_stays-terminal refl
      terminal_approval_stays-accepted

abbrev artifact : String → String → ArtifactRef
artifact id path = record { artifact_id = some id; kind = none; path = some path; label = none }

abbrev artifacts_before : List ArtifactRef
artifacts_before = artifact "a" "1" ∷ artifact "b" "2" ∷ []

abbrev artifacts_new : List ArtifactRef
artifacts_new = artifact "a" "3" ∷ []

abbrev artifacts_after : List ArtifactRef
artifacts_after = artifact "a" "3" ∷ artifact "b" "2" ∷ []

unique_before : is_unique ("a" ∷ "b" ∷ []) ≡ true
unfolding is_unique
unique_before = refl

artifacts_merged : merge_artifacts (some artifacts_before) (some artifacts_new) ≡ ok artifacts_after
unfolding merge_artifacts merge_by_id collect accept_artifact put
artifacts_merged = refl

merge_artifacts-IsKeyed_example : IsKeyed (λ x. x.artifact_id) 100 artifacts_after
merge_artifacts-IsKeyed_example =
    merge_artifacts-IsKeyed (some artifacts_before) (some artifacts_new) artifacts_after
      unique_before artifacts_merged

abbrev memory : String → MemoryRef
memory id = record { memory_id = some id; topic = none; summary = none; revision = none }

abbrev memories : List MemoryRef
memories = memory "a" ∷ memory "b" ∷ []

memories_merged : merge_memory_refs (some memories) (some (memory "a" ∷ [])) ≡ ok memories
unfolding merge_memory_refs merge_by_id collect accept_memory put
memories_merged = refl

merge_memory_refs-IsKeyed_example : IsKeyed (λ x. x.memory_id) 32 memories
merge_memory_refs-IsKeyed_example =
    merge_memory_refs-IsKeyed (some memories) (some (memory "a" ∷ [])) memories unique_before
      memories_merged

abbrev delegation : String → String → DelegationEntry
delegation id status = record {
  id = some id;
  status = some status;
  created_at = none;
  contents = [];
}

abbrev delegations : List DelegationEntry
delegations = delegation "a" "succeeded" ∷ delegation "b" "running" ∷ []

-- the late update of the delegation that has succeeded is left out
delegations_merged :
    merge_delegations (some delegations) (some (delegation "a" "running" ∷ [])) ≡ ok delegations
unfolding merge_delegations merge_by_id collect accept_delegation put lookup is_given is_one_of
    is_other
delegations_merged = refl

merge_delegations-IsKeyed_example : IsKeyed (λ x. x.id) 50 delegations
merge_delegations-IsKeyed_example =
    merge_delegations-IsKeyed (some delegations) (some (delegation "a" "running" ∷ [])) delegations
      unique_before delegations_merged

abbrev skill : String → SkillEntry
skill path = record {
  name = some path;
  path = some path;
  description = none;
  loaded_at = none;
  revision = none;
}

abbrev loaded : String → SkillRef
loaded path = record {
  name = path;
  path = path;
  description = [];
  loaded_at = pos 0;
  revision = [];
}

abbrev skills_after : List SkillRef
skills_after = loaded "b" ∷ loaded "a" ∷ []

skills_merged :
    merge_skill_context (some (skill "a" ∷ skill "b" ∷ [])) (some (skill "a" ∷ []))
    ≡ ok skills_after
unfolding merge_skill_context collect_skills normalize_skill move_to_end
skills_merged = refl

merge_skill_context_unique_example : (length skills_after ≤ 8) × (is_unique ("b" ∷ "a" ∷ []) ≡ true)
merge_skill_context_unique_example =
    merge_skill_context_unique (some (skill "a" ∷ skill "b" ∷ [])) (skill "a") [] skills_after
      skills_merged

abbrev ended_before : Dict DelegationEntry
ended_before = ("a", delegation "a" "succeeded") ∷ []

late_updates :
    collect accept_delegation ended_before (delegation "a" "running" ∷ []) ≡ ok ended_before
unfolding collect accept_delegation put lookup is_given is_one_of is_other
late_updates = refl

a_has_succeeded : HasStatus "a" (some "succeeded") ended_before
unfolding lookup
a_has_succeeded = record { entry = delegation "a" "succeeded"; is_there = refl; has_status = refl }

succeeded_is_ended : is_one_of terminal_delegation_statuses (some "succeeded") ≡ true
unfolding is_one_of
succeeded_is_ended = refl

ended_status_stays_example : HasStatus "a" (some "succeeded") ended_before
ended_status_stays_example =
    ended_status_stays (delegation "a" "running" ∷ []) ended_before ended_before "a"
      (some "succeeded") succeeded_is_ended a_has_succeeded late_updates

-- two children, of which one repeats what the other found
evidence_order_is_irrelevant_example :
    (merge_evidence_refs
        (some (codes "c" ∷ []))
        (some ((codes " b " ∷ codes "a" ∷ []) ++ codes "b" ∷ []))
      ≡ merge_evidence_refs
          (some (codes "c" ∷ []))
          (some ((codes "b" ∷ []) ++ codes " b " ∷ codes "a" ∷ [])))
    × (merge_evidence_fingerprints
          (some (codes "c" ∷ []))
          (some ((codes " b " ∷ codes "a" ∷ []) ++ codes "b" ∷ []))
        ≡ merge_evidence_fingerprints
            (some (codes "c" ∷ []))
            (some ((codes "b" ∷ []) ++ codes " b " ∷ codes "a" ∷ [])))
evidence_order_is_irrelevant_example =
    evidence_order_is_irrelevant (some (codes "c" ∷ [])) (codes " b " ∷ codes "a" ∷ [])
      (codes "b" ∷ [])

abbrev promoted : Text → List Text → PromotedTools
promoted hash names = record { catalog_hash = hash; names = names; capability_ids = none }

promoted_result :
    merge_promoted_tools
      (some (promoted (codes "h") (codes "a" ∷ [])))
      (some (promoted (codes " h") (codes "b" ∷ codes "a " ∷ [])))
    ≡ ok (some (promoted (codes "h") (codes "a" ∷ codes "b" ∷ [])))
unfolding merge_promoted_tools cleaned joined distinct same_text strip is_space
promoted_result = refl

promoted_names-IsClean_example :
    (tools : PromotedTools) × ((some (promoted (codes "h") (codes "a" ∷ codes "b" ∷ []))
        ≡ some tools)
      × ((tools.catalog_hash ≡ strip (codes " h"))
          × (IsClean tools.names × (length tools.names ≤ max_promoted_tools))))
promoted_names-IsClean_example =
    promoted_names-IsClean (some (promoted (codes "h") (codes "a" ∷ [])))
      (promoted (codes " h") (codes "b" ∷ codes "a " ∷ []))
      (some (promoted (codes "h") (codes "a" ∷ codes "b" ∷ []))) promoted_result
