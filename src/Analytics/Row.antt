-- ===== src/Analytics/Row.antt =====
-- `_row_from_payload` of services/analytics-service-py/src/stream_consumer.py. Numbers are natural;
-- what Python's `int` and `float` make of a text is an argument.
use docintel.Common.{
  ◌>>=◌, ◌==◌, ℕ, Bool, false, not, Option, none, some, List, [], ◌∷◌, Text, codes, is_empty, Dict,
  lookup, if◌then◌else◌,
}

-- A value of the decoded JSON object; `absent` where the key is missing.
pub data Value : Type 0 where
  absent null : Value
  boolean : (b : Bool) → Value
  number : (n : ℕ) → Value
  text : (t : Text) → Value

abbrev pub Payload : Type 0
Payload = Dict Value

-- A cell of a row: `str(v)` of a value, or a number, or a truth value.
pub data Cell : Type 0 where
  str_cell : (v : Value) → Cell
  number_cell : (n : ℕ) → Cell
  bool_cell : (b : Bool) → Cell

-- What the row does to a value.
pub data Kind : Type 0 where
  as_str as_int as_bool as_float : Kind

-- `_COLUMNS`, with the conversion of each column.
abbrev pub columns : List (Text × Kind)
columns =
    (codes "query_id", as_str)
    ∷ (codes "tenant_id", as_str)
    ∷ (codes "user_id", as_str)
    ∷ (codes "latency_ms", as_int)
    ∷ (codes "model_used", as_str)
    ∷ (codes "cache_hit", as_bool)
    ∷ (codes "source_count", as_int)
    ∷ (codes "thinking_truncated", as_bool)
    ∷ (codes "prompt_tokens", as_int)
    ∷ (codes "completion_tokens", as_int)
    ∷ (codes "cost_usd", as_float)
    ∷ (codes "query_text", as_str)
    ∷ (codes "retrieval_mode", as_str)
    ∷ (codes "rerank_candidates_in", as_int)
    ∷ (codes "rerank_candidates_out", as_int)
    ∷ (codes "reranker_degraded", as_bool)
    ∷ (codes "trace_id", as_str)
    ∷ []

-- `payload.get(key)`.
unfoldable pub get : Text → Payload → Value
get key payload = elim (lookup key payload) [ none ↦ absent | some v ↦ v ]

-- `str(payload.get(key, ""))`.
unfoldable pub to_str : Value → Value
to_str absent = text []
to_str null = null
to_str (boolean b) = boolean b
to_str (number n) = number n
to_str (text t) = text t

-- `bool(payload.get(key, False))`.
unfoldable pub to_bool : Value → Bool
to_bool absent = false
to_bool null = false
to_bool (boolean b) = b
to_bool (number n) = not (n == 0)
to_bool (text t) = not (is_empty t)

module _ (parse_int parse_float : Text → Option ℕ) where
  -- `int(v or 0)` and `float(v or 0.0)`; `none` is the ValueError.
  unfoldable pub to_number : (Text → Option ℕ) → Value → Option ℕ
  to_number parse absent = some 0
  to_number parse null = some 0
  to_number parse (boolean b) = some (if b then 1 else 0)
  to_number parse (number n) = some n
  to_number parse (text t) = if is_empty t then some 0 else parse t

  unfoldable pub cell : Kind → Value → Option Cell
  cell as_str v = some (str_cell (to_str v))
  cell as_bool v = some (bool_cell (to_bool v))
  cell as_int v = elim (to_number parse_int v) [ none ↦ none | some n ↦ some (number_cell n) ]
  cell as_float v = elim (to_number parse_float v) [ none ↦ none | some n ↦ some (number_cell n) ]

  unfoldable pub cells : List (Text × Kind) → Payload → Option (List Cell)
  cells [] payload = some []
  cells ((key, kind) ∷ more) payload = do
    c ← cell kind (get key payload)
    rest ← cells more payload
    some (c ∷ rest)

  unfoldable pub row_from_payload : Payload → Option (List Cell)
  row_from_payload payload = cells columns payload
