-- ===== src/Rag/Guard.antt =====
-- services/rag-service/src/pipelines/answer_guard.py: the guard that holds back any tail of a
-- streamed answer which could be the start of the refusal sentence.
pub mod Conserve
pub mod Drop
pub mod Trailing
mod Examples
use docintel.Common.{
  ℕ, zero, suc, ◌-◌, Bool, true, false, ◌&&◌, ◌||◌, not, List, [], ◌∷◌, ◌++◌, Text, length, get_or,
  take, drop, is_empty, is_space, strip, starts_with, text_eq, ◌==◌, if◌then◌else◌,
}

pub record Guard : Type 0 where
  pub sentence : Text
  pub held : Text
  pub released_content : Bool

pub new_guard : Text → Guard
new_guard sentence = record { sentence = sentence; held = []; released_content = false }

-- `_whitespace_start`: back over the white space that stands before position `j`.
pub whitespace_start : Text → ℕ → ℕ
whitespace_start buf zero = zero
whitespace_start buf (suc j) = if is_space (get_or buf j 0) then whitespace_start buf j else suc j

-- The test of the loop in `_hold_from` at position `j`.
pub may_start : Text → Text → ℕ → Bool
may_start sentence buf j =
    (j == 0 || is_space (get_or buf (j - 1) 0)) && starts_with sentence (drop j buf)

-- The loop of `_hold_from`, with the number of positions that are left.
pub hold_scan : Text → Text → ℕ → ℕ → ℕ
hold_scan sentence buf zero j = whitespace_start buf (length buf)
hold_scan sentence buf (suc left) j =
    let later = hold_scan sentence buf left (suc j) in
    if may_start sentence buf j then whitespace_start buf j else later

-- `first = max(0, len(buf) - len(sentence))`, and the range from it to `len(buf)`.
pub hold_from : Text → Text → ℕ
hold_from sentence buf =
    let first = length buf - length sentence in hold_scan sentence buf (length buf - first) first

-- `feed`: the text that is safe to emit now, and the guard after it.
pub feed : Guard → Text → Text × Guard
feed g text =
    let buf = g.held ++ text in
    let cut = hold_from g.sentence buf in
    let out = take cut buf in
    (
      out,
      record g {
        held = drop cut buf;
        released_content = g.released_content || not (is_empty (strip out));
      },
    )

-- `finish`: what is still held, minus a refusal appended to an answer.
pub finish : Guard → Text × Guard
finish g =
    let held = g.held in
    let g' = record g { held = [] } in
    if g.released_content && text_eq (strip held) g.sentence then ([], g') else (held, g')

-- The calls that the stream loop makes: one `feed` for each answer token, then `finish`. What is
-- emitted is the concatenation of the results.
pub feed_all : Guard → List Text → Text × Guard
unfolding feed
feed_all g [] = ([], g)
feed_all g (t ∷ ts) =
    let (out, g') = feed g t in let (outs, g'') = feed_all g' ts in (out ++ outs, g'')

pub guard_stream : Text → List Text → Text
unfolding feed_all finish new_guard
guard_stream sentence chunks =
    let (out, g) = feed_all (new_guard sentence) chunks in out ++ (finish g).0
