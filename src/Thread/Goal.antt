-- ===== src/Thread/Goal.antt =====
-- `merge_goal` and `merge_approval_context`: states whose terminal status is not taken back.
use poor_travel_agent.Base.{
  String, ◌≡◌, refl, Bool, true, false, ◌||◌, not, Option, none, some, List, [], ◌∷◌, ◌==◌, eq_iff,
  arith, if◌then◌else◌,
}
use poor_travel_agent.Base.Effect.{Result, ok, raised}
use poor_travel_agent.Thread.Update.{Error, value_error, overlay, differ, reduce, reduce_keeps}

-- `status in TERMINAL_…_STATUSES`, with None in none of them
unfoldable pub is_one_of : List String → Option String → Bool
is_one_of statuses none = false
is_one_of [] (some s) = false
is_one_of (x ∷ xs) (some s) = x == s || is_one_of xs (some s)

abbrev pub terminal_goal_statuses : List String
terminal_goal_statuses = "succeeded" ∷ "failed" ∷ "cancelled" ∷ []

abbrev pub terminal_approval_statuses : List String
terminal_approval_statuses = "approved" ∷ "rejected" ∷ "expired" ∷ []

-- What a status that is stored lets an update with a status of its own do.
pub data Decision : Type 0 where
  keep refuse apply : Decision

-- `!=` on two texts that may be None
unfoldable pub is_other : Option String → Option String → Bool
is_other none none = false
is_other (some a) (some b) = not (a == b)
is_other _ _ = true

unfoldable pub decide_status : List String → Option String → Option String → Decision
decide_status terminal old new =
    if is_one_of terminal old
    then (if is_one_of terminal new then (if is_other old new then refuse else apply) else keep)
    else apply

pub record GoalState : Type 0 where
  pub goal_id : Option String
  pub description : Option String
  pub status : Option String
  pub updated_at : Option String

abbrev overlay_goal : GoalState → GoalState → GoalState
overlay_goal a b = record {
  goal_id = overlay a.goal_id b.goal_id;
  description = overlay a.description b.description;
  status = overlay a.status b.status;
  updated_at = overlay a.updated_at b.updated_at;
}

unfoldable pub merge_goal : Option GoalState → Option GoalState → Result Error (Option GoalState)
merge_goal existing none = ok existing
merge_goal none (some new) = ok (some new)
merge_goal (some existing) (some new) =
    if differ existing.goal_id new.goal_id
    then raised value_error
    else elim (decide_status terminal_goal_statuses existing.status new.status) [
      | keep ↦ ok (some existing)
      | refuse ↦ raised value_error
      | apply ↦ ok (some (overlay_goal existing new))
    ]

pub record ApprovalContext : Type 0 where
  pub request_id : Option String
  pub tool_call_id : Option String
  pub args_digest : Option String
  pub status : Option String
  pub decided_by : Option String

abbrev overlay_approval : ApprovalContext → ApprovalContext → ApprovalContext
overlay_approval a b = record {
  request_id = overlay a.request_id b.request_id;
  tool_call_id = overlay a.tool_call_id b.tool_call_id;
  args_digest = overlay a.args_digest b.args_digest;
  status = overlay a.status b.status;
  decided_by = overlay a.decided_by b.decided_by;
}

unfoldable pub approval_conflict : ApprovalContext → ApprovalContext → Bool
approval_conflict a b =
    differ a.request_id b.request_id
    || differ a.tool_call_id b.tool_call_id
    || differ a.args_digest b.args_digest

unfoldable pub merge_approval_context :
    Option ApprovalContext → Option ApprovalContext → Result Error (Option ApprovalContext)
merge_approval_context existing none = ok existing
merge_approval_context none (some new) = ok (some new)
merge_approval_context (some existing) (some new) =
    if approval_conflict existing new
    then raised value_error
    else elim (decide_status terminal_approval_statuses existing.status new.status) [
      | keep ↦ ok (some existing)
      | refuse ↦ raised value_error
      | apply ↦ ok (some (overlay_approval existing new))
    ]

-- A terminal status passes an update unchanged.
settled :
    (terminal : List String) (old new : Option String)
    → is_one_of terminal old ≡ true
    → decide_status terminal old new ≡ apply
    → overlay old new ≡ old
unfolding decide_status is_other overlay
settled terminal old none h k = refl
settled terminal none (some b) h k = unfold is_one_of in ground arith
settled terminal (some a) (some b) h k = ground (arith, eq_iff a b)

-- the status of a goal that may be missing
abbrev pub goal_status : Option GoalState → Option String
goal_status none = none
goal_status (some g) = g.status

abbrev pub approval_status : Option ApprovalContext → Option String
approval_status none = none
approval_status (some a) = a.status

goal_step :
    (s u t : Option GoalState) (status : Option String)
    → is_one_of terminal_goal_statuses status ≡ true
    → goal_status s ≡ status
    → merge_goal s u ≡ ok t
    → goal_status t ≡ status
unfolding merge_goal
goal_step s none t status f h k = ground arith
goal_step none (some u) t status f h k = unfold is_one_of in ground arith
goal_step (some s) (some u) t status f h k =
    ground (arith, settled terminal_goal_statuses s.status u.status)

approval_step :
    (s u t : Option ApprovalContext) (status : Option String)
    → is_one_of terminal_approval_statuses status ≡ true
    → approval_status s ≡ status
    → merge_approval_context s u ≡ ok t
    → approval_status t ≡ status
unfolding merge_approval_context
approval_step s none t status f h k = ground arith
approval_step none (some u) t status f h k = unfold is_one_of in ground arith
approval_step (some s) (some u) t status f h k =
    ground (arith, settled terminal_approval_statuses s.status u.status)

-- A goal that has succeeded, failed or been cancelled has that status after every row of updates
-- that is accepted.
pub terminal_goal_stays :
    (us : List (Option GoalState)) (s t : Option GoalState) (status : Option String)
    → is_one_of terminal_goal_statuses status ≡ true
    → goal_status s ≡ status
    → reduce merge_goal s us ≡ ok t
    → goal_status t ≡ status
terminal_goal_stays us s t status f =
    reduce_keeps merge_goal (λ x. goal_status x ≡ status)
      (λ x u y h k. goal_step x u y status f h k) us s t

-- An approval that was approved, rejected or has expired has that status after every row of updates
-- that is accepted.
pub terminal_approval_stays :
    (us : List (Option ApprovalContext)) (s t : Option ApprovalContext) (status : Option String)
    → is_one_of terminal_approval_statuses status ≡ true
    → approval_status s ≡ status
    → reduce merge_approval_context s us ≡ ok t
    → approval_status t ≡ status
terminal_approval_stays us s t status f =
    reduce_keeps merge_approval_context (λ x. approval_status x ≡ status)
      (λ x u y h k. approval_step x u y status f h k) us s t
