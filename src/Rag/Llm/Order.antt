-- ===== src/Rag/Llm/Order.antt =====
-- The token loop yields thinking, token and status events only, and its tokens are the answer.
use mathlib.Core.Path.{ap₂}
use mathlib.Core.List.{append_assoc, append-nil}
use docintel.Common.{
  arith, sym, ◌||◌, ap, ◌++◌, true, any, false, Bool, All, All-append, ◌≡◌, refl, ◌∙◌, some, List,
  [], ◌∷◌, Text,
}
use docintel.Rag.Types.{
  metadata_event, error_event, PipelineEvent, thinking_token_event, token_event, status_event,
}
use docintel.Rag.Guard.{Guard, feed, finish}
use docintel.Rag.Events.{streaming, follow, follow-append}
use docintel.Rag.Llm.{stage_name, Item, thinking, status, answer, drain, run_queue, token_events}

follow-token_events : (s : Text) → follow streaming (token_events s) ≡ some streaming
unfolding follow
follow-token_events [] = refl
follow-token_events (c ∷ s) = refl

follow-drain :
    (g : Guard) (items : List Item) → follow streaming (drain g items).events ≡ some streaming
unfolding drain follow
follow-drain g [] = refl
follow-drain g (thinking t ∷ items) = follow-drain g items
follow-drain g (status t ∷ items) = follow-drain g items
follow-drain g (answer t ∷ items) =
    follow-append streaming streaming (token_events (feed g t).0) _
      (follow-token_events (feed g t).0)
    ∙ follow-drain (feed g t).1 items

pub follow-run_queue :
    (g : Guard) (items : List Item) → follow streaming (run_queue g items).events ≡ some streaming
unfolding run_queue
follow-run_queue g items =
    follow-append streaming streaming (drain g items).events _ (follow-drain g items)
    ∙ follow-token_events (finish (drain g items).guard).0

-- A property of the three kinds of events that the token loop yields holds of all its events.
module _ (P : PipelineEvent → Type 0) (th : (t : Text) → P (thinking_token_event t))
    (tk : (t : Text) → P (token_event t)) (st : (t : Text) → P (status_event t)) where
  All-token_events : (s : Text) → All P (token_events s)
  All-token_events [] = tt
  All-token_events (c ∷ s) = (tk (c ∷ s), tt)

  All-drain : (g : Guard) (items : List Item) → All P (drain g items).events
  unfolding drain
  All-drain g [] = tt
  All-drain g (thinking t ∷ items) = (th t, All-drain g items)
  All-drain g (status t ∷ items) = (st (stage_name t), All-drain g items)
  All-drain g (answer t ∷ items) =
      All-append P (token_events (feed g t).0) (drain (feed g t).1 items).events
        (All-token_events (feed g t).0) (All-drain (feed g t).1 items)

  pub All-run_queue : (g : Guard) (items : List Item) → All P (run_queue g items).events
  unfolding run_queue
  All-run_queue g items =
      All-append P (drain g items).events (token_events (finish (drain g items).guard).0)
        (All-drain g items) (All-token_events (finish (drain g items).guard).0)

-- The text of the token events.
abbrev pub token_text : List PipelineEvent → Text
token_text [] = []
token_text (token_event t ∷ evs) = t ++ token_text evs
token_text (metadata_event m ∷ evs) = token_text evs
token_text (_ ∷ evs) = token_text evs

abbrev is_error : PipelineEvent → Bool
is_error (error_event f) = true
is_error _ = false

abbrev pub has_error : List PipelineEvent → Bool
has_error evs = any is_error evs

pub token_text-append :
    (xs ys : List PipelineEvent) → token_text (xs ++ ys) ≡ token_text xs ++ token_text ys
token_text-append [] ys = refl
token_text-append (token_event t ∷ xs) ys =
    ap (λ r. t ++ r) (token_text-append xs ys)
    ∙ sym (append_assoc t (token_text xs) (token_text ys))
token_text-append (metadata_event m ∷ xs) ys = token_text-append xs ys
token_text-append (_ ∷ xs) ys = token_text-append xs ys

pub has_error-append :
    (xs ys : List PipelineEvent) → has_error (xs ++ ys) ≡ (has_error xs || has_error ys)
has_error-append [] ys = refl
has_error-append (x ∷ xs) ys = ground (arith, has_error-append xs ys)

token_text-token_events : (s : Text) → token_text (token_events s) ≡ s
token_text-token_events [] = refl
token_text-token_events (c ∷ s) = append-nil (c ∷ s)

token_text-drain :
    (g : Guard) (items : List Item) → token_text (drain g items).events ≡ (drain g items).answer
unfolding drain
token_text-drain g [] = refl
token_text-drain g (thinking t ∷ items) = token_text-drain g items
token_text-drain g (status t ∷ items) = token_text-drain g items
token_text-drain g (answer t ∷ items) =
    token_text-append (token_events (feed g t).0) (drain (feed g t).1 items).events
    ∙ ap₂ (λ (a b : Text). a ++ b) (token_text-token_events (feed g t).0)
        (token_text-drain (feed g t).1 items)

-- The answer that the loop collects is the text of the tokens that it yields.
pub token_text-run_queue :
    (g : Guard) (items : List Item)
    → token_text (run_queue g items).events ≡ (run_queue g items).answer
unfolding run_queue
token_text-run_queue g items =
    token_text-append (drain g items).events (token_events (finish (drain g items).guard).0)
    ∙ ap₂ (λ (a b : Text). a ++ b) (token_text-drain g items)
        (token_text-token_events (finish (drain g items).guard).0)

has_error-None :
    (evs : List PipelineEvent) → All (λ x. is_error x ≡ false) evs → has_error evs ≡ false
has_error-None [] h = refl
has_error-None (x ∷ evs) h = rw h.0 (has_error-None evs h.1)

pub has_error-run_queue :
    (g : Guard) (items : List Item) → has_error (run_queue g items).events ≡ false
has_error-run_queue g items =
    has_error-None (run_queue g items).events
      (All-run_queue (λ x. is_error x ≡ false) (λ t. refl) (λ t. refl) (λ t. refl) g items)
