-- ===== src/Rag/Conversations/Examples.antt =====
-- A conversation of nine messages, and a summarizer that always answers.
use docintel.Common.{ℕ, ◌≤◌, refl, Option, some, none, List, [], ◌∷◌, Text, codes, arith, text_eq}
use docintel.Rag.Conversations.{Message, Db, first, is_of, is_turn, turns}
use docintel.Rag.Conversations.History.{Limits, Event, message, begin_compression, reply, steps}
use docintel.Rag.Conversations.Covered.{nothing_yet}
use docintel.Rag.Conversations.Sound.{Sound, steps-Sound}
use docintel.Rag.Conversations.Window.{left_out, compression-left_out}

abbrev limits : Limits
limits = record { threshold = 8; verbatim = 4 }

abbrev chat : Text
chat = codes "c1"

abbrev asked : Text → Message
asked content = record { conversation_id = chat; role = codes "user"; content = content }

abbrev chats : Db
chats = record {
  conversations =
      (record {
        id = chat;
        tenant_id = codes "acme";
        user_id = none;
        title = codes "New Conversation";
        session_summary = none;
        summary_upto_count = 0;
        updated_at = 0;
      })
      ∷ [];
  messages =
      asked (codes "1")
      ∷ asked (codes "2")
      ∷ asked (codes "3")
      ∷ asked (codes "4")
      ∷ asked (codes "5")
      ∷ asked (codes "6")
      ∷ asked (codes "7")
      ∷ asked (codes "8")
      ∷ asked (codes "9")
      ∷ [];
}

abbrev shorten : Option Text → List Message → ℕ → Option Text
shorten old ms now = some (codes "so far")

-- Two compressions begin, a message comes, and the later one ends first.
abbrev overlapping : List Event
overlapping =
    begin_compression
    ∷ message chat (codes "user") (codes "10") (codes "acme") 1
    ∷ begin_compression
    ∷ reply 1 2
    ∷ reply 0 3
    ∷ []

chats-Sound : Sound chat (codes "acme") shorten (record { db = chats; waiting = [] })
unfolding first is_of turns is_turn text_eq
chats-Sound = record {
  anchored = record { within = omega arith; summarised = nothing_yet };
  awaited = tt;
}

steps-Sound_example :
    Sound chat
      (codes "acme")
      shorten
      (steps shorten limits chat (codes "acme") (record { db = chats; waiting = [] }) overlapping)
steps-Sound_example =
    steps-Sound shorten limits chat (codes "acme") overlapping (record { db = chats; waiting = [] })
      chats-Sound

compression-left_out_example :
    left_out limits chat
      (codes "acme")
      (steps shorten limits chat
        (codes "acme")
        (record { db = chats; waiting = [] })
        (begin_compression ∷ reply 0 1 ∷ [])).db
    ≤ 1
unfolding first is_of turns is_turn text_eq
compression-left_out_example =
    compression-left_out shorten limits chat (codes "acme") 1 chats (λ a ms n. refl) refl
      (omega arith)
