-- ===== src/Policy/Rules.antt =====
-- `classify_candidate` and `evaluate_diff`.
use poor_travel_agent.Base.{
  ℕ, ◌+◌, String, Bool, true, false, ◌&&◌, ◌||◌, not, List, [], ◌∷◌, ltb, leb, any, length, filter,
  ◌==◌, if◌then◌else◌,
}
use poor_travel_agent.Policy.Paths.{
  Text, same_text, normalized_paths, is_production_path, is_test_path, is_frontend_path,
  is_protected, is_global_dirty, companion_key, in_scan_scope,
}

-- The fields that the policy reads. `confidence` counts units of 2^-52, rounded down, which does not
-- change the comparison with 0.8, itself a whole number of them.
pub record WorkerResult : Type 0 where
  pub verdict : String
  pub changed_files : List Text
  pub suggested_tier : String
  pub confidence : ℕ

pub record DiffSnapshot : Type 0 where
  pub changed_files : List Text
  pub additions : ℕ
  pub deletions : ℕ
  pub binary_files : List Text
  pub symlink_files : List Text
  pub behavior_changed : Bool
  pub deleted_files : List Text

abbrev pub changed_lines : DiffSnapshot → ℕ
changed_lines d = d.additions + d.deletions

pub record PolicyDecision : Type 0 where
  pub allowed : Bool
  pub tier : String
  pub reasons : List String

-- the float 0.8 in units of 2^-52
abbrev pub min_confidence : ℕ
min_confidence = 3602879701896397

abbrev pub is_empty {ℓ} : {A : Type ℓ} → List A → Bool
is_empty [] = true
is_empty (_ ∷ _) = false

-- if test: reasons.append(reason)
abbrev append_if : Bool → String → List String → List String
append_if true reason rest = reason ∷ rest
append_if false reason rest = rest

abbrev pub decide : List String → PolicyDecision → PolicyDecision
decide [] accepted = accepted
decide (r ∷ rs) accepted = record { allowed = false; tier = "C"; reasons = r ∷ rs }

abbrev pub is_unauthorized : Text → Bool
is_unauthorized p = not (is_frontend_path p) || is_protected p

abbrev pub is_tier_a : DiffSnapshot → List Text → Bool
is_tier_a snapshot actual =
    not (is_empty (filter is_production_path actual))
    && (not snapshot.behavior_changed || not (is_empty (filter is_test_path actual)))
    && leb (length (filter is_production_path actual)) 2
    && leb (length (filter is_test_path actual)) 1
    && leb (changed_lines snapshot) 80

abbrev pub tier_of : DiffSnapshot → List Text → PolicyDecision
tier_of snapshot actual =
    if is_tier_a snapshot actual
    then record { allowed = true; tier = "A"; reasons = [] }
    else (if leb (length actual) 3 && leb (changed_lines snapshot) 150
        then record {
          allowed = true;
          tier = "B";
          reasons = append_if snapshot.behavior_changed "包含前端行为变化" [];
        }
        else record { allowed = false; tier = "C"; reasons = "diff 超过 Tier B 文件数或行数预算" ∷ [] })

-- `casefold` is `str.casefold`.
module _ (casefold : Text → Text) where
  abbrev is_companion : Text → Text → Bool
  is_companion p human =
      same_text p human || same_text (companion_key casefold p) (companion_key casefold human)

  unfoldable pub overlaps_dirty : List Text → List Text → Bool
  overlaps_dirty paths dirty_paths =
      not (is_empty paths) && any is_global_dirty (normalized_paths dirty_paths)
      || any (λ p. any (is_companion p) (normalized_paths dirty_paths)) paths

  unfoldable pub candidate_reasons : WorkerResult → List Text → List Text → List Text → List String
  candidate_reasons candidate paths dirty scope =
      append_if (not (candidate.verdict == "FIX" || candidate.verdict == "FRONTEND_CANDIDATE"))
        "不是可修复前端候选"
        (append_if (ltb candidate.confidence min_confidence) "候选置信度不足" (
          append_if (candidate.suggested_tier == "C") "模型已识别为只报告范围" (
            append_if (is_empty paths) "候选没有声明修改路径" (
              append_if (any is_unauthorized paths) "候选包含未授权路径" (
                append_if (not (is_empty scope) && any (λ p. not (in_scan_scope scope p)) paths)
                  "候选不属于本轮扫描范围" (append_if (overlaps_dirty paths dirty) "人工修改路径重叠" []))))))

  unfoldable pub classify_candidate : WorkerResult → List Text → List Text → PolicyDecision
  classify_candidate candidate dirty scope =
      decide (candidate_reasons candidate (normalized_paths candidate.changed_files) dirty scope)
        (record { allowed = true; tier = candidate.suggested_tier; reasons = [] })

  unfoldable pub diff_reasons : DiffSnapshot → List Text → List Text → List Text → List String
  diff_reasons snapshot declared actual dirty = append_if (is_empty actual) "Fixer 没有生成 diff" (
      append_if (any (λ p. not (any (same_text p) declared)) actual) "diff 包含候选范围之外的路径" (
        append_if (any is_unauthorized actual) "diff 包含未授权路径" (
          append_if (overlaps_dirty actual dirty) "diff 与人工修改路径重叠" (
            append_if (not (is_empty snapshot.binary_files)) "diff 包含二进制文件" (
              append_if (not (is_empty snapshot.symlink_files)) "diff 包含符号链接"
                (append_if (not (is_empty snapshot.deleted_files)) "diff 删除了文件" []))))))

  abbrev diff_decision : WorkerResult → DiffSnapshot → List Text → List Text → PolicyDecision
  diff_decision candidate snapshot dirty actual =
      decide (diff_reasons snapshot (normalized_paths candidate.changed_files) actual dirty)
        (tier_of snapshot actual)

  unfoldable pub evaluate_diff : WorkerResult → DiffSnapshot → List Text → PolicyDecision
  evaluate_diff candidate snapshot dirty =
      if (classify_candidate candidate dirty []).allowed
      then diff_decision candidate snapshot dirty (normalized_paths snapshot.changed_files)
      else classify_candidate candidate dirty []
