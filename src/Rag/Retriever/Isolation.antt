-- ===== src/Rag/Retriever/Isolation.antt =====
-- The cache of retrievers never gives a tenant those of another one.
use docintel.Common.{
  ℕ, Option, none, some, List, [], ◌∷◌, ◌++◌, Text, Dict, lookup, text_eq, text_eq_iff, Lacks, ◌≡◌,
  refl, sym, ap, subst, ◌∙◌, drop, Option-cases, Bool-cases, inl, inr, ◌⊎◌, if_true, if_false,
  some_eq, if◌then◌else◌, get_or,
}
use docintel.Rag.Retriever.{Retrievers, collection_of, cache_key, get_tenant_retrievers, calls}

-- What Python's `str` of a number has: no colon, and the number.
pub record Numerals (str : ℕ → Text) : Type 0 where
  pub plain : (n : ℕ) → Lacks b':' (str n)
  pub same : (m n : ℕ) → str m ≡ str n → m ≡ n

-- What an assignment in the cache does to any entry: it is evicted, or as in a dictionary.
abbrev pub Puts : (Text → Retrievers → Dict Retrievers → Dict Retrievers) → Type 0
Puts put =
    (k j : Text) (r : Retrievers) (cache : Dict Retrievers)
    → (lookup j (put k r cache) ≡ none)
      ⊎ (lookup j (put k r cache) ≡ (if text_eq k j then some r else lookup j cache))

has_colon : (u v : Text) → Lacks b':' (u ++ b':' ∷ v) → ⊥
has_colon [] v h = cc h.0
has_colon (c ∷ u) v h = has_colon u v h.1

-- The last colon tells the parts of a key.
colon_parts :
    (t u s v : Text)
    → Lacks b':' s
    → Lacks b':' v
    → t ++ b':' ∷ s ≡ u ++ b':' ∷ v
    → (t ≡ u) × (s ≡ v)
colon_parts [] [] s v h k e = (refl, ap (drop 1) e)
colon_parts [] (c ∷ u) s v h k e = absurd (has_colon u v (subst (Lacks b':') (ap (drop 1) e) h))
colon_parts (c ∷ t) [] s v h k e =
    absurd (has_colon t s (subst (Lacks b':') (sym (ap (drop 1) e)) k))
colon_parts (c ∷ t) (d ∷ u) s v h k e =
    let (first, last) = colon_parts t u s v h k (ap (drop 1) e) in
    (ap (λ x. x ∷ t) (ap (λ x. get_or x 0 0) e) ∙ ap (λ r. d ∷ r) first, last)

module _ (str : ℕ → Text) (put : Text → Retrievers → Dict Retrievers → Dict Retrievers) where
  -- The retrievers of a tenant, for its own collection.
  abbrev pub own : Text → ℕ → Retrievers
  own tenant_id top_k = record { collection = collection_of tenant_id; top_k = top_k }

  -- What the cache has at the key of a tenant is the tenant's.
  abbrev Isolated : Dict Retrievers → Type 0
  Isolated cache =
      (tenant_id : Text) (top_k : ℕ) (r : Retrievers)
      → lookup (cache_key str put tenant_id top_k) cache ≡ some r
      → r ≡ own tenant_id top_k

  cache_key-own :
      Numerals str
      → (t u : Text) (m n : ℕ) → cache_key str put t m ≡ cache_key str put u n
      → own t m ≡ own u n
  unfolding cache_key
  cache_key-own law t u m n e =
      let (tenants, counts) = colon_parts t u (str m) (str n) (law.plain m) (law.plain n) e in
      ap (λ x. own x m) tenants ∙ ap (own u) (law.same m n counts)

  put-Isolated :
      Numerals str
      → Puts put
      → (t : Text) (m : ℕ) (cache : Dict Retrievers) → Isolated cache
      → Isolated (put (cache_key str put t m) (own t m) cache)
  put-Isolated law puts t m cache h u n r e =
      let key = cache_key str put t m in
      let other = cache_key str put u n in
      elim (puts key other (own t m) cache) [
        | inl gone ↦ cc (sym gone ∙ e)
        | inr there ↦ elim (Bool-cases (text_eq key other)) [
          | inl same ↦
              some_eq (sym e ∙ there ∙ if_true _ _ _ same)
              ∙ cache_key-own law t u m n ((text_eq_iff key other).0 same)
          | inr differs ↦ h u n r (sym (there ∙ if_false _ _ _ differs) ∙ e)
        ]
      ]

  get-Isolated :
      Numerals str
      → Puts put
      → (t : Text) (m : ℕ) (cache : Dict Retrievers) → Isolated cache
      → ((get_tenant_retrievers str put t m cache).0 ≡ own t m)
        × Isolated (get_tenant_retrievers str put t m cache).1
  unfolding get_tenant_retrievers
  get-Isolated law puts t m cache h = elim (Option-cases (lookup (cache_key str put t m) cache)) [
    | inl e ↦ subst found (sym e) (refl, put-Isolated law puts t m cache h)
    | inr (r, e) ↦ subst found (sym e) (h t m r e, h)
  ]
    where
      after : Option Retrievers → Retrievers × Dict Retrievers
      after o = elim o [
        | some r ↦ (r, cache)
        | none ↦ (own t m, put (cache_key str put t m) (own t m) cache)
      ]

      found : Option Retrievers → Type 0
      found o = ((after o).0 ≡ own t m) × Isolated (after o).1

  calls-Isolated :
      Numerals str
      → Puts put
      → (earlier : List (Text × ℕ)) (cache : Dict Retrievers) → Isolated cache
      → Isolated (calls str put earlier cache)
  unfolding calls
  calls-Isolated law puts [] cache h = h
  calls-Isolated law puts ((t, m) ∷ rest) cache h =
      calls-Isolated law puts rest _ (get-Isolated law puts t m cache h).1

-- Whatever calls came before, for whatever tenants, and whatever the cache evicted, a call gives the
-- retrievers of the tenant's own collection, with the count that is asked for.
pub get_tenant_retrievers-own :
    (str : ℕ → Text) (put : Text → Retrievers → Dict Retrievers → Dict Retrievers)
    → Numerals str
    → Puts put
    → (earlier : List (Text × ℕ)) (tenant_id : Text) (top_k : ℕ)
    → (get_tenant_retrievers str put tenant_id top_k (calls str put earlier [])).0
      ≡ own str put tenant_id top_k
unfolding lookup
get_tenant_retrievers-own str put law puts earlier t m =
    (get-Isolated str put law puts t m _
      (calls-Isolated str put law puts earlier [] (λ u n r e. cc e))).0
