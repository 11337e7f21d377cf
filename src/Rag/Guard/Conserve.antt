-- ===== src/Rag/Guard/Conserve.antt =====
-- What the guard emits is the answer itself, or the answer without a refusal at its end.
use mathlib.Core.List.{append_assoc, append-nil}
use docintel.Common.{
  ◌≡◌, refl, sym, ap, ◌∙◌, ◌⊎◌, inl, inr, true, List, [], ◌∷◌, ◌++◌, Text, take-append-drop, concat,
  strip, strip-nil, AllSpace, AllSpace-append, text_eq_iff, arith,
}
use docintel.Rag.Guard.{Guard, new_guard, hold_from, feed, finish, feed_all, guard_stream}

pub feed_lem : (g : Guard) (t : Text) → (feed g t).0 ++ (feed g t).1.held ≡ g.held ++ t
unfolding feed
feed_lem g t = take-append-drop (hold_from g.sentence (g.held ++ t)) (g.held ++ t)

-- Nothing is lost or reordered while tokens are fed: what was emitted and what is held make up
-- what was held before and the tokens.
pub feed_all-concat :
    (g : Guard) (ts : List Text) → (feed_all g ts).0 ++ (feed_all g ts).1.held ≡ g.held ++ concat ts
unfolding feed_all
feed_all-concat g [] = sym (append-nil g.held)
feed_all-concat g (t ∷ ts) =
    append_assoc (feed g t).0 (feed_all (feed g t).1 ts).0 (feed_all (feed g t).1 ts).1.held
    ∙ ap (λ r. (feed g t).0 ++ r) (feed_all-concat (feed g t).1 ts)
    ∙ sym (append_assoc (feed g t).0 (feed g t).1.held (concat ts))
    ∙ ap (λ r. r ++ concat ts) (feed_lem g t)
    ∙ append_assoc g.held t (concat ts)

sentence-feed_all : (g : Guard) (ts : List Text) → (feed_all g ts).1.sentence ≡ g.sentence
unfolding feed_all
sentence-feed_all g [] = refl
sentence-feed_all g (t ∷ ts) = sentence-feed_all (feed g t).1 ts

pub finish_cases :
    (g : Guard)
    → ((finish g).0 ≡ g.held)
      ⊎ (((finish g).0 ≡ []) × (g.released_content ≡ true) × (strip g.held ≡ g.sentence))
unfolding finish
finish_cases g = ground (arith, text_eq_iff (strip g.held) g.sentence)

feed-AllSpace :
    (g : Guard) (t : Text)
    → AllSpace (feed g t).0
    → (feed g t).1.released_content ≡ g.released_content
unfolding feed
feed-AllSpace g t h = ground (arith, strip-nil (feed g t).0 h)

feed_all-AllSpace :
    (g : Guard) (ts : List Text)
    → AllSpace (feed_all g ts).0
    → (feed_all g ts).1.released_content ≡ g.released_content
unfolding feed_all
feed_all-AllSpace g [] h = refl
feed_all-AllSpace g (t ∷ ts) h =
    let (here, later) = AllSpace-append (feed g t).0 (feed_all (feed g t).1 ts).0 h in
    feed_all-AllSpace (feed g t).1 ts later ∙ feed-AllSpace g t here

-- Whatever the tokens are, what the guard emits is all of their text, or all of it up to a tail
-- which is the refusal sentence between white space; and in that case it has emitted more than
-- white space, so that a bare refusal is never dropped.
pub guard_stream-concat :
    (sentence : Text) (chunks : List Text)
    → (guard_stream sentence chunks ≡ concat chunks)
      ⊎ ((tail : Text) × (guard_stream sentence chunks ++ tail ≡ concat chunks)
          × (strip tail ≡ sentence)
          × ¬ AllSpace (guard_stream sentence chunks))
unfolding guard_stream
guard_stream-concat sentence chunks =
    let (out, g) = feed_all (new_guard sentence) chunks in
    elim (finish_cases g) [
      | inl kept ↦ inl (ap (λ r. out ++ r) kept ∙ feed_all-concat (new_guard sentence) chunks)
      | inr (dropped, released, refusal) ↦ inr (
        g.held,
        ap (λ r. (out ++ r) ++ g.held) dropped
            ∙ ap (λ r. r ++ g.held) (append-nil out)
            ∙ feed_all-concat (new_guard sentence) chunks,
        refusal ∙ sentence-feed_all (new_guard sentence) chunks,
        λ h.
            cc
              (released, feed_all-AllSpace (new_guard sentence) chunks (AllSpace-append out _ h).0),
      )
    ]
