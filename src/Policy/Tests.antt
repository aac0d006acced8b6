-- ===== src/Policy/Tests.antt =====
-- The policy at a small change of one component and its test.
use poor_travel_agent.Base.{◌≤◌, ◌≡◌, refl, true, List, [], ◌∷◌, All, length}
use poor_travel_agent.Base.Text.{codes}
use poor_travel_agent.Policy.Paths.{
  Text, same_text, starts_with, ends_with, split_slash, without_dots, parts, join_slash, as_posix,
  is_invalid, normalized, distinct, normalized_paths, is_production_path, is_test_path,
  is_frontend_path, is_protected, is_global_dirty, without_suffix, companion_key,
}
use poor_travel_agent.Policy.Rules.{
  WorkerResult, DiffSnapshot, changed_lines, overlaps_dirty, candidate_reasons, classify_candidate,
  diff_reasons, evaluate_diff,
}
use poor_travel_agent.Policy.Bounds.{IsSafe, evaluate_diff-IsSafe, allowed_diff_is_small}

abbrev same_case : Text → Text
same_case s = s

abbrev files : List Text
files =
    codes "frontend/src/components/./Map.vue" ∷ codes "frontend/src//components/Map.test.ts" ∷ []

abbrev candidate : WorkerResult
candidate = record {
  verdict = "FIX";
  changed_files = files;
  suggested_tier = "B";
  confidence = 4000000000000000;
}

abbrev snapshot : DiffSnapshot
snapshot = record {
  changed_files = files;
  additions = 30;
  deletions = 12;
  binary_files = [];
  symlink_files = [];
  behavior_changed = true;
  deleted_files = [];
}

abbrev dirty : List Text
dirty = codes "README.md" ∷ []

is_allowed : (evaluate_diff same_case candidate snapshot dirty).allowed ≡ true
unfolding evaluate_diff classify_candidate candidate_reasons diff_reasons overlaps_dirty
    normalized_paths distinct normalized is_invalid parts split_slash without_dots as_posix
    join_slash same_text starts_with ends_with is_production_path is_test_path is_frontend_path
    is_protected is_global_dirty companion_key without_suffix
is_allowed = refl

is_tier_a_change : (evaluate_diff same_case candidate snapshot dirty).tier ≡ "A"
unfolding evaluate_diff classify_candidate candidate_reasons diff_reasons overlaps_dirty
    normalized_paths distinct normalized is_invalid parts split_slash without_dots as_posix
    join_slash same_text starts_with ends_with is_production_path is_test_path is_frontend_path
    is_protected is_global_dirty companion_key without_suffix
is_tier_a_change = refl

evaluate_diff-IsSafe_example : All (IsSafe (normalized_paths files)) files
evaluate_diff-IsSafe_example = evaluate_diff-IsSafe same_case candidate snapshot dirty is_allowed

allowed_diff_is_small_example :
    (length (normalized_paths files) ≤ 3) × (changed_lines snapshot ≤ 150)
allowed_diff_is_small_example = allowed_diff_is_small same_case candidate snapshot dirty is_allowed

leaves_repository : is_invalid (codes "frontend/src/components/../../../core/x.vue") ≡ true
unfolding is_invalid parts split_slash without_dots same_text starts_with
leaves_repository = refl
