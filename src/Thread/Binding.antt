-- ===== src/Thread/Binding.antt =====
-- `merge_thread_data` and `merge_sandbox`: what a thread is bound to.
use poor_travel_agent.Base.{
  String, ◌≡◌, refl, Bool, false, ◌||◌, Option, none, some, List, [], ◌∷◌, subst, inl, inr, ◌==◌,
  arith, if◌then◌else◌,
}
use poor_travel_agent.Base.Effect.{Result, ok, raised}
use poor_travel_agent.Thread.Update.{
  Error, value_error, overlay, is_given, differ, flat, Kept, overlay-Kept, reduce, reduce_keeps,
}

pub record ThreadDataState : Type 0 where
  pub owner_id : Option String
  pub workspace_id : Option String
  pub thread_id : Option String
  pub workspace_path : Option (Option String)
  pub uploads_path : Option (Option String)
  pub outputs_path : Option (Option String)

-- the four keys of `identity_labels`, in their order
unfoldable pub identity_conflict : ThreadDataState → ThreadDataState → Bool
identity_conflict a b =
    differ a.owner_id b.owner_id
    || differ a.workspace_id b.workspace_id
    || differ a.thread_id b.thread_id
    || differ (flat a.workspace_path) (flat b.workspace_path)

abbrev overlay_thread : ThreadDataState → ThreadDataState → ThreadDataState
overlay_thread a b = record {
  owner_id = overlay a.owner_id b.owner_id;
  workspace_id = overlay a.workspace_id b.workspace_id;
  thread_id = overlay a.thread_id b.thread_id;
  workspace_path = overlay a.workspace_path b.workspace_path;
  uploads_path = overlay a.uploads_path b.uploads_path;
  outputs_path = overlay a.outputs_path b.outputs_path;
}

unfoldable pub merge_thread_data :
    Option ThreadDataState → Option ThreadDataState → Result Error (Option ThreadDataState)
merge_thread_data existing none = ok existing
merge_thread_data none (some new) = ok (some new)
merge_thread_data (some existing) (some new) =
    if identity_conflict existing new
    then raised value_error
    else ok (some (overlay_thread existing new))

-- `sandbox_id` is a required key whose value may be None.
pub record SandboxState : Type 0 where
  pub sandbox_id : Option String

abbrev join_sandbox :
    SandboxState → SandboxState → Option String → Option String → Result Error (Option SandboxState)
join_sandbox existing new none _ = ok (some new)
join_sandbox existing new (some a) none = ok (some existing)
join_sandbox existing new (some a) (some b) =
    if a == b then ok (some existing) else raised value_error

unfoldable pub merge_sandbox :
    Option SandboxState → Option SandboxState → Result Error (Option SandboxState)
merge_sandbox existing none = ok existing
merge_sandbox none (some new) = ok (some new)
merge_sandbox (some existing) (some new) =
    join_sandbox existing new existing.sandbox_id new.sandbox_id

-- the sandbox id of a state
abbrev pub sandbox_of : Option SandboxState → Option String
sandbox_of none = none
sandbox_of (some s) = s.sandbox_id

sandbox_step :
    (s u : Option SandboxState) (t : Option SandboxState) (id : String)
    → sandbox_of s ≡ some id
    → merge_sandbox s u ≡ ok t
    → sandbox_of t ≡ some id
unfolding merge_sandbox
sandbox_step s none t id h k = ground arith
sandbox_step none (some u) t id h k = cc
sandbox_step (some s) (some u) t id h k = ground (arith)

accepted :
    (a b c : ThreadDataState)
    → merge_thread_data (some a) (some b) ≡ ok (some c)
    → (identity_conflict a b ≡ false) × (overlay_thread a b ≡ c)
unfolding merge_thread_data
accepted a b c h = ground arith

no_conflict :
    (a b : ThreadDataState)
    → identity_conflict a b ≡ false
    → (differ a.owner_id b.owner_id ≡ false)
      × (differ a.workspace_id b.workspace_id ≡ false)
      × (differ a.thread_id b.thread_id ≡ false)
      × (differ (flat a.workspace_path) (flat b.workspace_path) ≡ false)
unfolding identity_conflict
no_conflict a b h = ground arith

path-Kept :
    (old new : Option (Option String))
    → differ (flat old) (flat new) ≡ false
    → Kept (flat old) (flat (overlay old new))
unfolding overlay is_given
path-Kept old none h = inl refl
path-Kept none (some new) h = inr (inl refl)
path-Kept (some old) (some none) h = inr (inr refl)
path-Kept (some old) (some (some v)) h = overlay-Kept old (some v) h

-- A thread that has a sandbox keeps its id through every row of updates that is accepted, whatever
-- the updates bring: None, no sandbox, or a sandbox.
pub sandbox_is_final :
    (us : List (Option SandboxState)) (s t : Option SandboxState) (id : String)
    → sandbox_of s ≡ some id
    → reduce merge_sandbox s us ≡ ok t
    → sandbox_of t ≡ some id
sandbox_is_final us s t id =
    reduce_keeps merge_sandbox (λ x. sandbox_of x ≡ some id)
      (λ x u y h k. sandbox_step x u y id h k) us s t

-- An accepted update of a binding leaves each of the four identity keys as it was, unless the key
-- was not given before or is not given any more; and a conflict at one of them is refused.
pub identity-Kept :
    (a b c : ThreadDataState)
    → merge_thread_data (some a) (some b) ≡ ok (some c)
    → (identity_conflict a b ≡ false)
      × Kept a.owner_id c.owner_id
      × Kept a.workspace_id c.workspace_id
      × Kept a.thread_id c.thread_id
      × Kept (flat a.workspace_path) (flat c.workspace_path)
unfolding merge_thread_data
identity-Kept a b c h =
    let (fits, e) = accepted a b c h in
    let (p, q, r, w) = no_conflict a b fits in
    (
      fits,
      subst (λ x. Kept a.owner_id x.owner_id) e (overlay-Kept a.owner_id b.owner_id p),
      subst (λ x. Kept a.workspace_id x.workspace_id) e
          (overlay-Kept a.workspace_id b.workspace_id q),
      subst (λ x. Kept a.thread_id x.thread_id) e (overlay-Kept a.thread_id b.thread_id r),
      subst (λ x. Kept (flat a.workspace_path) (flat x.workspace_path)) e
          (path-Kept a.workspace_path b.workspace_path w),
    )

abbrev pub bound_to : String → ThreadDataState
bound_to owner = record {
  owner_id = some owner;
  workspace_id = none;
  thread_id = none;
  workspace_path = none;
  uploads_path = none;
  outputs_path = none;
}

-- For a binding that has an owner and no other key, an update with an empty owner is accepted, and
-- after it an update with any owner, so that two updates give the binding any other owner.
pub owner_changes_through_empty :
    (a b : String)
    → reduce merge_thread_data (some (bound_to a)) (some (bound_to "") ∷ some (bound_to b) ∷ [])
      ≡ ok (some (bound_to b))
unfolding reduce merge_thread_data identity_conflict differ is_given overlay
owner_changes_through_empty a b = ground arith
