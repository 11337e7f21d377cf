-- ===== src/Rag/Conversations/Covered.antt =====
-- A summary of the first messages of a conversation, as many as it counts, and a compression that
-- goes on where it ends.
use docintel.Rag.Conversations.Rows.{anchor}
use docintel.Common.{
  length-take, if_false, if_true, Bool-cases, if◌then◌else◌, refl, take-own_length, inr, inl, Bool,
  ℕ, ◌+◌, ◌≤◌, Option, none, some, List, [], ◌++◌, Text, length, take, drop, ◌≡◌, sym, ap, subst,
  ◌∙◌, arith, length-append, length-drop, take-within, drop-within, take-add,
}
use docintel.Rag.Conversations.{Conversation, if_there, state_of, Message}
use docintel.Rag.Conversations.History.{Plan}

module _ (compress : Option Text → List Message → ℕ → Option Text) where
  -- A summary that the summarizer made of some messages, step by step.
  pub data Summarised : Option Text → List Message → Type 0 where
    nothing_yet : Summarised none []
    extended :
        (s : Option Text) (old span : List Message) (seed : ℕ) (t : Text)
        → Summarised s old
        → compress s span seed ≡ some t
        → Summarised (some t) (old ++ span)

  -- The summary of the store is one of the messages that it counts.
  pub record Anchored (xs : List Message) (a : Option Text × ℕ) : Type 0 where
    pub within : a.1 ≤ length xs
    pub summarised : Summarised a.0 (take a.1 xs)

  -- A waiting compression goes on where its summary ends.
  pub record Waits (xs : List Message) (p : Plan) : Type 0 where
    pub within : p.summary_upto + length p.new_span ≤ length xs
    pub summarised : Summarised p.session_summary (take p.summary_upto xs)
    pub next : p.new_span ≡ take (length p.new_span) (drop p.summary_upto xs)

  pub Anchored-append :
      (xs ys : List Message) (a : Option Text × ℕ) → Anchored xs a → Anchored (xs ++ ys) a
  Anchored-append xs ys a h =
      let inside = h.within in
      let longer = length-append xs ys in
      record {
        within = omega arith;
        summarised = subst (Summarised a.0) (sym (take-within a.1 xs ys h.within)) h.summarised;
      }

  pub Waits-append : (xs ys : List Message) (p : Plan) → Waits xs p → Waits (xs ++ ys) p
  Waits-append xs ys p h =
      let inside = h.within in
      let longer = length-append xs ys in
      let rest = length-drop p.summary_upto xs in
      record {
        within = omega arith;
        summarised =
            subst (Summarised p.session_summary)
              (sym (take-within p.summary_upto xs ys (omega arith))) h.summarised;
        next =
            h.next
            ∙ sym (
                ap (take (length p.new_span)) (drop-within p.summary_upto xs ys (omega arith))
                ∙ take-within (length p.new_span) (drop p.summary_upto xs) ys (omega arith));
      }

  -- The reply for a waiting compression makes a summary of all that it counts.
  pub Waits-reply :
      (xs : List Message) (p : Plan) (seed : ℕ) (t : Text)
      → Waits xs p
      → compress p.session_summary p.new_span seed ≡ some t
      → Anchored xs (some t, p.summary_upto + length p.new_span)
  Waits-reply xs p seed t h e = record {
    within = h.within;
    summarised =
        subst (Summarised (some t))
          (ap (λ ys. take p.summary_upto xs ++ ys) h.next
            ∙ sym (take-add p.summary_upto (length p.new_span) xs))
          (extended p.session_summary _ p.new_span seed t h.summarised e);
  }

  pub Anchored-nothing : (xs : List Message) → Anchored xs (none, 0)
  Anchored-nothing xs = record { within = omega arith; summarised = nothing_yet }

pub if_some {ℓ} :
    {A : Type ℓ} (b : Bool) (o : Option A) (a : A) → (if b then none else o) ≡ some a → o ≡ some a
if_some b o a e = elim (Bool-cases b) [
  | inl h ↦ cc (sym (if_true b _ _ h) ∙ e)
  | inr h ↦ sym (if_false b _ _ h) ∙ e
]

-- What the summary state says of the summary is the anchor.
pub state_of-anchor :
    (ms : List Message) (o : Option Conversation)
    → anchor o ≡ ((state_of ms o).session_summary, (state_of ms o).summary_upto_count)
unfolding state_of
state_of-anchor ms none = refl
state_of-anchor ms (some c) = refl

-- A slice is as many messages as it has, from its offset on.
pub slice_lem :
    (limit : ℕ) (xs : List Message) (o : Option Conversation)
    → if_there (take limit xs) o ≡ take (length (if_there (take limit xs) o)) xs
unfolding if_there
slice_lem limit xs none = refl
slice_lem limit xs (some c) = sym (take-own_length limit xs)

pub slice_within :
    (limit : ℕ) (xs : List Message) (o : Option Conversation)
    → length (if_there (take limit xs) o) ≤ length xs
unfolding if_there
slice_within limit xs none = omega arith
slice_within limit xs (some c) = let n = length-take limit xs in omega arith
