-- ===== src/Web/Thread/Blocks.antt =====
-- Messages, blocks and tails of a layout (web/src/lib/watek.ts).
use mekamb_chat.Common.{
  ℕ, ◌+◌, ◌≡◌, refl, sym, ◌∙◌, ap, Bool, true, false, not, Option, none, some, Bool-cases, inl, inr,
  List, [], ◌∷◌, if◌then◌else◌, arith, any, filter, count, get_last?,
}
use mekamb_chat.Web.History.{Message}
use mekamb_chat.Web.Thread.{
  Calendar, Item, separator, bubble, is_break, is_run, place, continues, is_own, finish, lay_out,
}

abbrev pub shown : List Item → List Message
shown [] = []
shown (separator label time ∷ items) = shown items
shown (bubble w run tail last ∷ items) = w ∷ shown items

shown-place :
    (c : Calendar) (now : ℕ) (p : Option Message) (ws : List Message)
    → shown (place c now p ws) ≡ ws
unfolding place
shown-place c now p [] = refl
shown-place c now p (w ∷ ws) = elim (Bool-cases (is_break c p w)) [
  | inl e ↦ rw (place, e) (ap (w ∷◌) (shown-place c now (some w) ws))
  | inr e ↦ rw (place, e) (ap (w ∷◌) (shown-place c now (some w) ws))
]

shown-finish : (items : List Item) → shown (finish items).0 ≡ shown items
unfolding finish
shown-finish [] = refl
shown-finish (separator label time ∷ items) = shown-finish items
shown-finish (bubble w run tail last ∷ items) = ap (w ∷◌) (shown-finish items)

-- The layout shows every message of the thread, once and in order.
pub shown-lay_out : (c : Calendar) (ws : List Message) (now : ℕ) → shown (lay_out c ws now) ≡ ws
unfolding lay_out
shown-lay_out c ws now = shown-finish (place c now none ws) ∙ shown-place c now none ws

abbrev pub is_tail : Item → Bool
is_tail (separator label time) = false
is_tail (bubble w run tail last) = tail

abbrev pub starts_block : Item → Bool
starts_block (separator label time) = false
starts_block (bubble w run tail last) = not run

abbrev pub is_last_own : Item → Bool
is_last_own (separator label time) = false
is_last_own (bubble w run tail last) = last

-- No message continues a block across a separator.
abbrev pub Split : List Item → Type 0
Split [] = Unit {0}
Split (separator label time ∷ items) = (continues items ≡ false) × Split items
Split (bubble w run tail last ∷ items) = Split items

run_broken :
    (c : Calendar) (p : Option Message) (w : Message) → is_break c p w ≡ true → is_run c p w ≡ false
run_broken c none w h = refl
run_broken c (some p) w h = rw h refl

place-Split :
    (c : Calendar) (now : ℕ) (p : Option Message) (ws : List Message) → Split (place c now p ws)
unfolding place
place-Split c now p [] = tt
place-Split c now p (w ∷ ws) = elim (Bool-cases (is_break c p w)) [
  | inl e ↦ rw (place, e) (run_broken c p w e, place-Split c now (some w) ws)
  | inr e ↦ rw (place, e) (place-Split c now (some w) ws)
]

count_tails :
    (items : List Item)
    → Split items
    → count is_tail (finish items).0 ≡ count starts_block items + (if continues items then 1 else 0)
unfolding finish
count_tails [] h = refl
count_tails (separator label time ∷ items) h = ground (arith, count_tails items h.1, h.0)
count_tails (bubble w run tail last ∷ items) h = ground (arith, count_tails items h)

starts-finish : (items : List Item) → count starts_block (finish items).0 ≡ count starts_block items
unfolding finish
starts-finish [] = refl
starts-finish (separator label time ∷ items) = ground (arith, starts-finish items)
starts-finish (bubble w run tail last ∷ items) = ground (arith, starts-finish items)

first_starts :
    (c : Calendar) (now : ℕ) (ws : List Message) → continues (place c now none ws) ≡ false
unfolding place
first_starts c now [] = refl
first_starts c now (w ∷ ws) = refl

-- Each block of messages has one tail: as many messages carry a tail as start a block.
pub one_tail_each :
    (c : Calendar) (ws : List Message) (now : ℕ)
    → count is_tail (lay_out c ws now) ≡ count starts_block (lay_out c ws now)
unfolding lay_out
one_tail_each c ws now =
    let items = place c now none ws in
    ground (
      arith,
      count_tails items (place-Split c now none ws),
      starts-finish items,
      first_starts c now ws,
    )

own_found : (items : List Item) → (finish items).1 ≡ any is_own (shown items)
unfolding finish
own_found [] = refl
own_found (separator label time ∷ items) = own_found items
own_found (bubble w run tail last ∷ items) = ground (arith, own_found items)

filter_none : (p : Message → Bool) (ws : List Message) → any p ws ≡ false → filter p ws ≡ []
filter_none p [] h = refl
filter_none p (w ∷ ws) h = ground (arith, filter_none p ws)

get_last?-cons :
    (w : Message) (ws : List Message)
    → any is_own ws ≡ true
    → get_last? (w ∷ filter is_own ws) ≡ get_last? (filter is_own ws)
get_last?-cons w [] h = cc
get_last?-cons w (v ∷ ws) h = elim (Bool-cases (is_own v)) [
  | inl e ↦ rw e refl
  | inr e ↦ rw e (get_last?-cons w ws (rw e at h))
]

abbrev pub to_list : Option Message → List Message
to_list none = []
to_list (some w) = w ∷ []

marked :
    (items : List Item)
    → shown (filter is_last_own (finish items).0)
      ≡ to_list (get_last? (filter is_own (shown items)))
unfolding finish
marked [] = refl
marked (separator label time ∷ items) = marked items
marked (bubble w run tail last ∷ items) = elim (Bool-cases (any is_own (shown items))) [
  | inl later ↦
      let found : (finish items).1 ≡ true = own_found items ∙ later in
      elim (Bool-cases (is_own w)) [
        | inl own ↦
            rw (finish, found, own)
              (marked items ∙ ap to_list (sym (get_last?-cons w (shown items) later)))
        | inr other ↦ rw (finish, found, other) (marked items)
      ]
  | inr nothing ↦
      let found : (finish items).1 ≡ false = own_found items ∙ nothing in
      let nobody : filter is_own (shown items) ≡ [] = filter_none is_own (shown items) nothing in
      let rest : shown (filter is_last_own (finish items).0) ≡ [] =
        marked items ∙ ap (λ l. to_list (get_last? l)) nobody in
      elim (Bool-cases (is_own w)) [
        | inl own ↦ rw (finish, found, own) (rw (rest, nobody) refl)
        | inr other ↦ rw (finish, found, other) (rw (rest, nobody) refl)
      ]
]

-- The state of sending is shown under one message: the last own one that is no trace of a call, and
-- under none if there is no such message.
pub marked_last :
    (c : Calendar) (ws : List Message) (now : ℕ)
    → shown (filter is_last_own (lay_out c ws now)) ≡ to_list (get_last? (filter is_own ws))
unfolding lay_out
marked_last c ws now =
    marked (place c now none ws)
    ∙ ap (λ l. to_list (get_last? (filter is_own l))) (shown-place c now none ws)
