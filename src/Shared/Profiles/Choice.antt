-- ===== src/Shared/Profiles/Choice.antt =====
-- Which rows decide.
use docintel.Common.{
  ap, ◌∙◌, if_false, if_true, sym, subst, length, ltb, Bool-cases, ℕ, ◌≡◌, refl, true, false,
  Option, none, some, List, [], ◌∷◌, Text, ◌⊎◌, inl, inr,
}
use docintel.Shared.Profiles.{
  note_wildcard, Field, Params, Kind, Row, merge_into, merge, match_pattern, is_wildcard, same_kind,
  Best, longer, prefer, best_loop, best_match, params_of, builtin_for, infer_kind, resolve,
}

merge_into-some :
    (v : ℕ) (ps : List (Option Params)) (f : Field) → merge_into (some v) ps f ≡ some v
unfolding merge_into
merge_into-some v [] f = refl
merge_into-some v (none ∷ ps) f = merge_into-some v ps f
merge_into-some v (some p ∷ ps) f = merge_into-some v ps f

-- A row that may decide: its pattern matches the name, and it is an exact pattern, or a wildcard for
-- all kinds or for the model's own kind.
pub record Applies (name : Text) (target : Kind) (row : Row) : Type 0 where
  pub matches : match_pattern name row.model_pattern ≡ true
  pub fits :
      (is_wildcard row.model_pattern ≡ false)
      ⊎ ((row.kind ≡ none) ⊎ ((k : Kind) × (row.kind ≡ some k) × (same_kind k target ≡ true)))

-- What holds of a best match.
abbrev Is : (Row → Type 0) → Best → Type 0
Is P none = Unit {0}
Is P (some row) = P row

longer-Is : (P : Row → Type 0) (row : Row) (b : Best) → P row → Is P b → Is P (longer row b)
unfolding longer
longer-Is P row none p h = p
longer-Is P row (some old) p h =
    elim (Bool-cases (ltb (length old.model_pattern) (length row.model_pattern))) [
      | inl e ↦ subst (Is P) (sym (if_true _ _ _ e)) p
      | inr e ↦ subst (Is P) (sym (if_false _ _ _ e)) h
    ]

prefer-Is : (P : Row → Type 0) (a b : Best) → Is P a → Is P b → Is P (prefer a b)
unfolding prefer
prefer-Is P none b h k = k
prefer-Is P (some r) b h k = h

module _ (name : Text) (target : Kind) where
  note_wildcard-Is :
      (o : Option Kind) (row : Row) (best : Best × Best)
      → row.kind ≡ o
      → match_pattern name row.model_pattern ≡ true
      → Is (Applies name target) best.0
      → Is (Applies name target) best.1
      → Is (Applies name target) (note_wildcard o target row best).0
        × Is (Applies name target) (note_wildcard o target row best).1
  unfolding note_wildcard
  note_wildcard-Is none row best e m h k =
      (h, longer-Is (Applies name target) row best.1 (record { matches = m; fits = inr (inl e) }) k)
  note_wildcard-Is (some kind) row best e m h k = elim (Bool-cases (same_kind kind target)) [
    | inl q ↦
        subst {A = Best × Best} (λ p. Is (Applies name target) p.0 × Is (Applies name target) p.1)
          (sym (if_true _ _ _ q))
          (
            longer-Is (Applies name target) row best.0
                (record { matches = m; fits = inr (inr (kind, e, q)) }) h,
            k,
          )
    | inr q ↦
        subst {A = Best × Best} (λ p. Is (Applies name target) p.0 × Is (Applies name target) p.1)
          (sym (if_false _ _ _ q)) (h, k)
  ]

  best_loop-Is :
      (rows : List Row) (best : Best × Best)
      → Is (Applies name target) best.0
      → Is (Applies name target) best.1
      → Is (Applies name target) (best_loop name target rows best)
  unfolding best_loop
  best_loop-Is [] best h k = prefer-Is (Applies name target) best.0 best.1 h k
  best_loop-Is (row ∷ rows) best h k = elim (Bool-cases (match_pattern name row.model_pattern)) [
    | inr e ↦ subst (Is (Applies name target)) (sym (if_false _ _ _ e)) (best_loop-Is rows best h k)
    | inl e ↦
        let (h', k') = note_wildcard-Is row.kind row best refl e h k in
        elim (Bool-cases (is_wildcard row.model_pattern)) [
          | inl w ↦
              subst (Is (Applies name target)) (sym (if_true _ _ _ e ∙ if_true _ _ _ w))
                (best_loop-Is rows (note_wildcard row.kind target row best) h' k')
          | inr w ↦
              subst (Is (Applies name target)) (sym (if_true _ _ _ e ∙ if_false _ _ _ w))
                (record { matches = e; fits = inl w })
        ]
  ]

-- A row that is chosen matches the model's name, and it is an exact pattern, or a wildcard for all
-- kinds or for the model's own kind: a wildcard of another kind never decides.
pub best_match-Applies :
    (name : Text) (rows : List Row) (target : Kind) (row : Row)
    → best_match name rows target ≡ some row
    → Applies name target row
unfolding best_match
best_match-Applies name rows target row e =
    subst (Is (Applies name target)) e (best_loop-Is name target rows (none, none) tt tt)

-- If a tenant's row is the tenant's best match and sets a field, then it decides that field, also when
-- the row is a wildcard and a platform row names the model exactly.
pub resolve_tenant_first :
    (builtin : List (Text × Params)) (name : Text) (platform_rows tenant_rows : List Row)
    (row : Row) (f : Field) (v : ℕ)
    → best_match name tenant_rows (infer_kind name) ≡ some row
    → row.params f ≡ some v
    → resolve builtin name platform_rows tenant_rows f ≡ some v
unfolding resolve merge merge_into
resolve_tenant_first builtin name platform_rows tenant_rows row f v e h =
    let rest =
      params_of (best_match name platform_rows (infer_kind name))
      ∷ some (builtin_for builtin name)
      ∷ [] in
    ap (λ b. merge_into none (params_of b ∷ rest) f) e
    ∙ ap (λ o. merge_into o rest f) h
    ∙ merge_into-some v rest f
