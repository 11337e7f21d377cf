-- ===== src/Shared/Profiles.antt =====
-- lib/docintel-common/docintel_common/model_profile_resolver.py: which sampling parameters a model
-- gets. Numbers are natural, in a fixed unit; the built-in profiles are an argument, in their order.
pub mod Choice
pub mod Cache
mod Examples
use docintel.Common.{
  ◌==◌, ℕ, ◌-◌, Bool, true, false, not, ◌&&◌, ◌||◌, Option, none, some, List, [], ◌∷◌, Text, codes,
  length, take, ltb, starts_with, text_eq, get_or, if◌then◌else◌,
}
use docintel.Shared.Security.{lower}

-- The fields of `ModelSamplingParams`, but for `kind`.
pub data Field : Type 0 where
  temperature top_p max_tokens frequency_penalty presence_penalty repetition_penalty : Field
  top_k min_p thinking_temperature thinking_top_p thinking_max_tokens : Field
  thinking_frequency_penalty thinking_presence_penalty thinking_repetition_penalty : Field
  thinking_top_k thinking_min_p thinking_budget stream_thinking : Field

abbrev pub Params : Type 0
Params = Field → Option ℕ

pub data Kind : Type 0 where
  chat vlm embed rerank : Kind

-- A row of `admin.model_profiles`.
pub record Row : Type 0 where
  pub model_pattern : Text
  pub kind : Option Kind
  pub params : Params

-- `_merge`: the loop over the arguments, for one field.
unfoldable pub merge_into : Option ℕ → List (Option Params) → Field → Option ℕ
merge_into result [] f = result
merge_into result (none ∷ ps) f = merge_into result ps f
merge_into none (some p ∷ ps) f = merge_into (p f) ps f
merge_into (some v) (some p ∷ ps) f = merge_into (some v) ps f

unfoldable pub merge : List (Option Params) → Params
merge ps f = merge_into none ps f

-- `sub in s`.
unfoldable pub contains : Text → Text → Bool
contains sub [] = starts_with [] sub
contains sub (c ∷ s) = let rest = contains sub s in starts_with (c ∷ s) sub || rest

-- `_builtin_for`, with the families before the catch-all, which sets nothing.
unfoldable pub builtin_for : List (Text × Params) → Text → Params
builtin_for [] model_name = λ f. none
builtin_for ((family, params) ∷ more) model_name =
    let rest = builtin_for more model_name in
    if contains family (lower model_name) then params else rest

unfoldable pub infer_kind : Text → Kind
infer_kind model_name =
    let s = lower model_name in
    if contains (codes "rerank") s
    then rerank
    else if contains (codes "embed") s
    then embed
    else if contains (codes "-vl") s
        || contains (codes ":vl") s
        || contains (codes "vision") s
        || starts_with s (codes "vl")
    then vlm
    else chat

-- `pattern.endswith("*")`.
unfoldable pub is_wildcard : Text → Bool
is_wildcard pattern = ltb 0 (length pattern) && get_or pattern (length pattern - 1) 0 == b'*'

-- `_match_pattern`, for names and patterns in ASCII.
unfoldable pub match_pattern : Text → Text → Bool
match_pattern model_name pattern =
    if is_wildcard pattern
    then starts_with (lower model_name) (lower (take (length pattern - 1) pattern))
    else text_eq (lower model_name) (lower pattern)

unfoldable pub same_kind : Kind → Kind → Bool
same_kind chat k = elim k [ chat ↦ true | vlm ↦ false | embed ↦ false | rerank ↦ false ]
same_kind vlm k = elim k [ chat ↦ false | vlm ↦ true | embed ↦ false | rerank ↦ false ]
same_kind embed k = elim k [ chat ↦ false | vlm ↦ false | embed ↦ true | rerank ↦ false ]
same_kind rerank k = elim k [ chat ↦ false | vlm ↦ false | embed ↦ false | rerank ↦ true ]

-- A best match so far: the row, and the length of its pattern.
abbrev pub Best : Type 0
Best = Option Row

-- `len(pattern) > best_len`, where the length of no match is -1.
unfoldable pub longer : Row → Best → Best
longer row none = some row
longer row (some old) =
    if ltb (length old.model_pattern) (length row.model_pattern) then some row else some old

-- `exact or best_kind_wildcard or best_universal_wildcard`, for no exact match.
unfoldable pub prefer : Best → Best → Best
prefer none universal = universal
prefer (some row) universal = some row

-- A matching wildcard, noted in the two best ones: by kind, and universal.
unfoldable pub note_wildcard : Option Kind → Kind → Row → Best × Best → Best × Best
note_wildcard none target row (by_kind, universal) = (by_kind, longer row universal)
note_wildcard (some k) target row (by_kind, universal) =
    if same_kind k target then (longer row by_kind, universal) else (by_kind, universal)

-- The loop of `_best_match` with a target kind, and its two best wildcards so far.
unfoldable pub best_loop : Text → Kind → List Row → Best × Best → Best
best_loop name target [] best = prefer best.0 best.1
best_loop name target (row ∷ rows) best =
    let skipped = best_loop name target rows best in
    let noted = best_loop name target rows (note_wildcard row.kind target row best) in
    if match_pattern name row.model_pattern
    then (if is_wildcard row.model_pattern then noted else some row)
    else skipped

unfoldable pub best_match : Text → List Row → Kind → Best
best_match name rows target = best_loop name target rows (none, none)

abbrev pub params_of : Best → Option Params
params_of none = none
params_of (some row) = some row.params

-- `_build_and_cache` without the cache.
unfoldable pub resolve : List (Text × Params) → Text → List Row → List Row → Params
resolve builtin name platform_rows tenant_rows = merge (
    params_of (best_match name tenant_rows (infer_kind name))
    ∷ params_of (best_match name platform_rows (infer_kind name))
    ∷ some (builtin_for builtin name)
    ∷ [])
