-- ===== src/Policy/Paths.antt =====
-- Paths of the policy as lists of code points: their normal form and the rules on them.
use poor_travel_agent.Base.{
  ℕ, Bool, true, false, ◌&&◌, ◌||◌, List, [], ◌∷◌, ◌++◌, eqb, any, map, length, take, drop, ltb,
  ◌-◌, if◌then◌else◌,
}
use poor_travel_agent.Base.Text.{codes}

abbrev pub Text : Type 0
Text = List ℕ

-- ==
unfoldable pub same_text : Text → Text → Bool
same_text [] [] = true
same_text (a ∷ s) (b ∷ t) = eqb a b && same_text s t
same_text _ _ = false

-- s.startswith(prefix)
unfoldable pub starts_with : Text → Text → Bool
starts_with _ [] = true
starts_with [] (b ∷ t) = false
starts_with (a ∷ s) (b ∷ t) = eqb a b && starts_with s t

-- s.endswith(suffix)
unfoldable pub ends_with : Text → Text → Bool
ends_with s t =
    if ltb (length s) (length t) then false else same_text (drop (length s - length t) s) t

abbrev member : Text → List Text → Bool
member s = any (same_text s)

-- The pieces of a path between its slashes, the first one first.
abbrev push : ℕ → List Text → List Text
push c [] = (c ∷ []) ∷ []
push c (w ∷ ws) = (c ∷ w) ∷ ws

unfoldable pub split_slash : Text → List Text
split_slash [] = [] ∷ []
split_slash (c ∷ s) = let rest = split_slash s in if eqb c b'/' then [] ∷ rest else push c rest

-- `parts` of a relative `PurePosixPath`: neither empty pieces nor "."
unfoldable pub without_dots : List Text → List Text
without_dots [] = []
without_dots (w ∷ ws) =
    let rest = without_dots ws in
    if same_text w [] || same_text w (b'.' ∷ []) then rest else w ∷ rest

unfoldable pub parts : Text → List Text
parts s = without_dots (split_slash s)

unfoldable pub join_slash : List Text → Text
join_slash [] = []
join_slash (w ∷ []) = w
join_slash (w ∷ v ∷ ws) = w ++ b'/' ∷ join_slash (v ∷ ws)

-- `as_posix` of a relative path
unfoldable pub as_posix : Text → Text
as_posix s = if same_text (join_slash (parts s)) [] then b'.' ∷ [] else join_slash (parts s)

abbrev pub is_absolute : Text → Bool
is_absolute s = starts_with s (b'/' ∷ [])

-- a backslash, NUL, a line feed or a carriage return
abbrev is_forbidden : ℕ → Bool
is_forbidden c = eqb c 92 || eqb c 0 || eqb c 10 || eqb c 13

abbrev pub has_parent : Text → Bool
has_parent s = any (λ w. same_text w (b'.' ∷ b'.' ∷ [])) (parts s)

unfoldable pub is_invalid : Text → Bool
is_invalid raw = is_absolute raw || has_parent raw || any is_forbidden raw

unfoldable pub normalized : Text → Text
normalized raw = if is_invalid raw then codes "<invalid>/" ++ raw else as_posix raw

-- dict.fromkeys: every text once, where it came first
unfoldable pub distinct : List Text → List Text → List Text
distinct seen [] = []
distinct seen (s ∷ ss) =
    let known = distinct seen ss in
    let new = distinct (s ∷ seen) ss in if member s seen then known else s ∷ new

unfoldable pub normalized_paths : List Text → List Text
normalized_paths paths = distinct [] (map normalized paths)

unfoldable pub is_production_path : Text → Bool
is_production_path p =
    ends_with p (codes ".vue")
    && (starts_with p (codes "frontend/src/components/")
        || starts_with p (codes "frontend/src/views/"))

unfoldable pub is_test_path : Text → Bool
is_test_path p = starts_with p (codes "frontend/src/") && ends_with p (codes ".test.ts")

unfoldable pub is_frontend_path : Text → Bool
is_frontend_path p = is_production_path p || is_test_path p

abbrev pub protected_prefixes : List Text
protected_prefixes =
    codes ".cc-connect/"
    ∷ codes ".codex/"
    ∷ codes ".github/"
    ∷ codes "core/"
    ∷ codes "db/"
    ∷ codes "docs/loop-harness/"
    ∷ codes "scripts/"
    ∷ codes "frontend/src/api/"
    ∷ codes "frontend/src/router/"
    ∷ codes "frontend/src/stores/"
    ∷ codes "frontend/src/types/"
    ∷ []

abbrev pub protected_files : List Text
protected_files =
    codes "AGENTS.md"
    ∷ codes "CLAUDE.md"
    ∷ codes "frontend/package.json"
    ∷ codes "frontend/package-lock.json"
    ∷ codes "frontend/pnpm-lock.yaml"
    ∷ codes "frontend/yarn.lock"
    ∷ []

unfoldable pub is_protected : Text → Bool
is_protected p = member p protected_files || any (starts_with p) protected_prefixes

abbrev pub global_dirty_prefixes : List Text
global_dirty_prefixes =
    codes ".github/"
    ∷ codes "frontend/src/api/"
    ∷ codes "frontend/src/router/"
    ∷ codes "frontend/src/stores/"
    ∷ codes "frontend/src/types/"
    ∷ []

abbrev pub global_dirty_files : List Text
global_dirty_files =
    codes "frontend/package.json"
    ∷ codes "frontend/package-lock.json"
    ∷ codes "frontend/pnpm-lock.yaml"
    ∷ codes "frontend/yarn.lock"
    ∷ codes "frontend/vite.config.ts"
    ∷ codes "frontend/tsconfig.json"
    ∷ []

unfoldable pub is_global_dirty : Text → Bool
is_global_dirty p = member p global_dirty_files || any (starts_with p) global_dirty_prefixes

-- `PurePosixPath(path).name` of a relative path
abbrev last_or_empty : List Text → Text
last_or_empty [] = []
last_or_empty (w ∷ []) = w
last_or_empty (_ ∷ v ∷ ws) = last_or_empty (v ∷ ws)

abbrev name_of : Text → Text
name_of p = last_or_empty (parts p)

-- the name without the first of the suffixes that it ends with
unfoldable pub without_suffix : List Text → Text → Text
without_suffix [] name = name
without_suffix (suffix ∷ rest) name =
    let other = without_suffix rest name in
    if ends_with name suffix then take (length name - length suffix) name else other

abbrev companion_suffixes : List Text
companion_suffixes = codes ".test.ts" ∷ codes ".spec.ts" ∷ codes ".vue" ∷ codes ".ts" ∷ []

unfoldable pub companion_key : (Text → Text) → Text → Text
companion_key casefold p = casefold (without_suffix companion_suffixes (name_of p))

-- `rstrip('/')`, and a slash again
unfoldable pub directory_of : Text → Text
directory_of [] = b'/' ∷ []
directory_of (c ∷ s) =
    let rest = directory_of s in
    if eqb c b'/' && same_text rest (b'/' ∷ []) then b'/' ∷ [] else c ∷ rest

unfoldable pub in_scan_scope : List Text → Text → Bool
in_scan_scope scope p = any (λ root. same_text p root || starts_with p (directory_of root)) scope
