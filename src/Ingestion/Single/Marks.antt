-- ===== src/Ingestion/Single/Marks.antt =====
-- What the metadata of a splitter's document say.
use docintel.Common.{
  zero, suc, ℕ, false, none, some, List, [], ◌∷◌, Text, codes, Dict, insert, lookup, lookup-insert,
  text_eq, text_eq_refl, ◌≡◌, refl, ap, ◌∙◌, if_true, if_false,
}
use docintel.Ingestion.Metadata.{Value, number, Document}
use docintel.Ingestion.Splitter.{Chunk}
use docintel.Ingestion.Single.{offset_value, document_of, value_at}

-- The numbers from `i` on.
abbrev pub count_up : ℕ → ℕ → List ℕ
count_up i zero = []
count_up i (suc n) = i ∷ count_up (suc i) n

lookup_same : (k : Text) (v : Value) (m : Dict Value) → lookup k (insert k v m) ≡ some v
lookup_same k v m = lookup-insert k k v m ∙ if_true _ _ _ (text_eq_refl k)

lookup_other :
    (k j : Text) (v : Value) (m : Dict Value)
    → text_eq k j ≡ false
    → lookup j (insert k v m) ≡ lookup j m
lookup_other k j v m h = lookup-insert k j v m ∙ if_false _ _ _ h

pub value_here :
    (k : Text) (m : Dict Value) (d v : Value) → lookup k m ≡ some v → value_at k m d ≡ v
unfolding value_at
value_here k m d v e = ap (λ o. elim o [ none ↦ d | some w ↦ w ]) e

-- A key that the splitter does not set keeps its value.
pub kept :
    (id_of : Text → Dict Value → Text) (d : Document) (c : Chunk) (k : Text)
    → text_eq (codes "split_id") k ≡ false
    → text_eq (codes "split_idx_start") k ≡ false
    → text_eq (codes "split_idx_end") k ≡ false
    → text_eq (codes "bert_token_count") k ≡ false
    → lookup k (document_of id_of d c).meta ≡ lookup k d.meta
unfolding document_of
kept id_of d c k h1 h2 h3 h4 =
    lookup_other _ k _ _ h1
    ∙ lookup_other _ k _ _ h2
    ∙ lookup_other _ k _ _ h3
    ∙ lookup_other _ k _ _ h4

pub set_start :
    (id_of : Text → Dict Value → Text) (d : Document) (c : Chunk)
    → lookup (codes "split_idx_start") (document_of id_of d c).meta
      ≡ some (offset_value c.split_idx_start)
unfolding document_of text_eq
set_start id_of d c = lookup_other (codes "split_id") _ _ _ refl ∙ lookup_same _ _ _

pub set_end :
    (id_of : Text → Dict Value → Text) (d : Document) (c : Chunk)
    → lookup (codes "split_idx_end") (document_of id_of d c).meta ≡ some (number c.split_idx_end)
unfolding document_of text_eq
set_end id_of d c =
    lookup_other (codes "split_id") _ _ _ refl
    ∙ lookup_other (codes "split_idx_start") _ _ _ refl
    ∙ lookup_same _ _ _
