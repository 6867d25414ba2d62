-- ===== src/Tests/Merging.antt =====
-- Runs of the merging of histories (web/src/lib/historia.ts).
use mekamb_chat.Common.{
  ℕ, ◌≡◌, arith, String, true, ◌&&◌, none, List, [], ◌∷◌, count, text_eqb, text_discrete,
}
use mekamb_chat.Web.History.{Message}
use mekamb_chat.Web.History.Merging.{Platform, message_key, merge_messages}
use mekamb_chat.Web.History.Union.{has_key, count-merge_messages}

-- A platform on which "a" is the only text before another, "b".
abbrev platform : Platform
platform = record { print = λ n. "7"; before = λ x y. text_eqb x "a" && text_eqb y "b" }

abbrev said : String → ℕ → Message
said id time = record {
  id = id;
  author = "ala";
  text = "hej";
  time = time;
  own = true;
  attachment = none;
  call = none;
  state = none;
}

-- Two devices that share the message "b".
abbrev ours : List Message
ours = said "b" 7 ∷ said "c" 3 ∷ []

abbrev theirs : List Message
theirs = said "a" 7 ∷ said "b" 7 ∷ []

count-merge_messages_example :
    count (has_key platform "id:b") (merge_messages platform ours theirs) ≡ 1
unfolding message_key text_discrete
count-merge_messages_example = count-merge_messages platform ours theirs "id:b" (omega arith)
