-- ===== src/Rag/Routing.antt =====
-- services/rag-service/src/components/routing.py, and `_resolve_domain_filter` of
-- pipelines/query.py. The zero-shot router is an argument: the output that fired, or nothing where
-- there is no router or it raised.
use docintel.Common.{Option, none, some, [], ◌∷◌, Text, codes, text_eq, if◌then◌else◌}

-- The router's keyword outputs.
pub record RouterOutput : Type 0 where
  pub hr_policy : Option Text
  pub technical : Option Text
  pub contracts : Option Text
  pub general : Option Text

-- `DomainFilterBuilder.run` returns the query, the value that `document_type` has to match, and
-- the detected domain.
pub record DomainFilter : Type 0 where
  pub query : Text
  pub domain_filter : Option Text
  pub detected_domain : Text

-- `s` as Python tests it: `None` and the empty text are false.
abbrev pub filled : Option Text → Option Text
filled none = none
filled (some []) = none
filled (some (c ∷ s)) = some (c ∷ s)

abbrev pub or_else : Option Text → Option Text → Option Text
or_else a b = elim (filled a) [ some s ↦ some s | none ↦ b ]

abbrev pub text_of : Option Text → Text
text_of none = []
text_of (some s) = s

-- `explicit_domain and explicit_domain != "all"`.
pub explicit_type : Option Text → Option Text
explicit_type t = elim (filled t) [
  | none ↦ none
  | some s ↦ if text_eq s (codes "all") then none else some s
]

-- The query and the detected domain, by the branches of the source.
pub pick_domain : Option Text → RouterOutput → Option Text × Option Text
pick_domain explicit r = elim (explicit_type explicit) [
  | some d ↦ (or_else r.hr_policy (or_else r.technical (or_else r.contracts r.general)), some d)
  | none ↦ elim (filled r.hr_policy) [
    | some q ↦ (some q, some (codes "hr_policy"))
    | none ↦ elim (filled r.technical) [
      | some q ↦ (some q, some (codes "technical"))
      | none ↦ elim (filled r.contracts) [
        | some q ↦ (some q, some (codes "contracts"))
        | none ↦ (r.general, none)
      ]
    ]
  ]
]

pub build_filter : Option Text → RouterOutput → DomainFilter
build_filter explicit r =
    let (query, detected) = pick_domain explicit r in
    record {
      query = text_of query;
      domain_filter = detected;
      detected_domain = elim detected [ some d ↦ d | none ↦ codes "all" ];
    }

-- `_resolve_domain_filter`: the detected domain, and the filter's value.
pub resolve_domain_filter : Option Text → Option RouterOutput → Option Text × Option Text
resolve_domain_filter document_type router = elim (explicit_type document_type) [
  | some t ↦ (some t, some t)
  | none ↦ elim router [
    | none ↦ (none, none)
    | some r ↦ let f = build_filter none r in (some f.detected_domain, f.domain_filter)
  ]
]
