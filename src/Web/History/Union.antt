-- ===== src/Web/History/Union.antt =====
-- web/src/lib/historia.ts, `scalWiadomosci`: what the merged list holds, and in which order.
use mekamb_chat.Common.{
  ℕ, zero, suc, ◌+◌, ◌-◌, ◌≤◌, ◌≡◌, refl, ap, ◌∙◌, arith, String, Bool, true, false, not, ◌&&◌,
  ◌||◌, Option, none, some, List, [], ◌∷◌, if◌then◌else◌, text_eqb, text_discrete, length, count,
  any, All, drop, take_last, length-take_last, is_some, Bool-cases, inl, inr,
}
use mekamb_chat.Common.Keyed.{get, set, get-set, length-set}
use mekamb_chat.Web.History.{Message, message_limit}
use mekamb_chat.Web.History.Merging.{
  Platform, message_key, join_messages, ByKey, put_ours, put_theirs, met, comes_after,
  insert_message, sort_messages, values_of, merge_messages,
}

abbrev pub has_key : Platform → String → Message → Bool
has_key u j w = text_eqb (message_key u w) j

-- Whether a list holds a message with a key, and whether it does beside the traces of calls.
abbrev pub is_among : Platform → String → List Message → Bool
is_among u j l = any (has_key u j) l

abbrev pub is_among_theirs : Platform → String → List Message → Bool
is_among_theirs u j l = any (λ w. not (is_some w.call) && has_key u j w) l

abbrev once : Bool → ℕ
once b = if b then 1 else 0

module _ (u : Platform) where
  Filed : ByKey → Type 0
  Filed m = All (λ e. message_key u e.1 ≡ e.0) m

  count-set :
      (k j : String) (v : Message) (m : ByKey)
      → message_key u v ≡ k
      → Filed m
      → count (has_key u j) (values_of (set text_discrete k v m))
        ≡ once (text_eqb k j && not (is_some (get text_discrete k m)))
          + count (has_key u j) (values_of m)
  unfolding Filed get set
  count-set k j v [] e h = rw e (ground arith)
  count-set k j v ((i, w) ∷ m) e (hi, h) = ground (arith, count-set k j v m e h)

  set-Filed :
      (k : String) (v : Message) (m : ByKey)
      → message_key u v ≡ k
      → Filed m
      → Filed (set text_discrete k v m)
  unfolding Filed set text_discrete
  set-Filed k v [] e h = (e, tt)
  set-Filed k v ((i, w) ∷ m) e (hi, h) = ground (arith, set-Filed k v m e h)

  -- Every key stands once, and a message stands under its key.
  record Filing (m : ByKey) : Type 0 where
    filed : Filed m
    single :
        (j : String) → count (has_key u j) (values_of m) ≡ once (is_some (get text_discrete j m))

  set-Filing :
      (k : String) (v : Message) (m : ByKey)
      → message_key u v ≡ k
      → Filing m
      → Filing (set text_discrete k v m)
  set-Filing k v m e h = record {
    filed = set-Filed k v m e h.filed;
    single =
        λ j. ground (arith, count-set k j v m e h.filed, h.single j, get-set text_discrete k j v m);
  }

  has-set :
      (k j : String) (v : Message) (m : ByKey)
      → is_some (get text_discrete j (set text_discrete k v m))
        ≡ text_eqb k j || is_some (get text_discrete j m)
  has-set k j v m = ground (arith, get-set text_discrete k j v m)

  get-Filed :
      (k : String) (w : Message) (m : ByKey)
      → Filed m
      → get text_discrete k m ≡ some w
      → message_key u w ≡ k
  unfolding Filed get
  get-Filed k w [] h e = absurd (cc e)
  get-Filed k w ((i, x) ∷ m) (hi, h) e = ground (arith, get-Filed k w m h)

  met_key :
      (old : Option Message) (w : Message)
      → ((x : Message) → old ≡ some x → message_key u x ≡ message_key u w)
      → message_key u (met old w) ≡ message_key u w
  unfolding met join_messages message_key
  met_key none w h = refl
  met_key (some x) w h = h x refl

  put_ours_lem :
      (l : List Message) (m : ByKey)
      → Filing m
      → Filing (put_ours u l m)
        × ((j : String)
            → is_some (get text_discrete j (put_ours u l m))
              ≡ is_some (get text_discrete j m) || is_among u j l)
  unfolding put_ours
  put_ours_lem [] m h = (h, λ j. ground arith)
  put_ours_lem (w ∷ l) m h =
      let (filing, all) = put_ours_lem l _ (set-Filing (message_key u w) w m refl h) in
      (filing, λ j. ground (arith, all j, has-set (message_key u w) j w m))

  put_theirs_lem :
      (l : List Message) (m : ByKey)
      → Filing m
      → Filing (put_theirs u l m)
        × ((j : String)
            → is_some (get text_discrete j (put_theirs u l m))
              ≡ is_some (get text_discrete j m) || is_among_theirs u j l)
  unfolding put_theirs
  put_theirs_lem [] m h = (h, λ j. ground arith)
  put_theirs_lem (w ∷ l) m h = elim (Bool-cases (is_some w.call)) [
    | inl e ↦ let (filing, all) = put_theirs_lem l m h in (rw e filing, λ j. rw e (all j))
    | inr e ↦
        let k = message_key u w in
        let v = met (get text_discrete k m) w in
        let (filing, all) = put_theirs_lem l (set text_discrete k v m) (
          set-Filing k v m
            (met_key (get text_discrete k m) w (λ x found. get-Filed k x m h.filed found)) h) in
        (rw e filing, λ j. rw e (ground (arith, all j, has-set k j v m)))
  ]

  count-insert_message :
      (p : Message → Bool) (w : Message) (l : List Message)
      → count p (insert_message u w l) ≡ once (p w) + count p l
  unfolding insert_message
  count-insert_message p w [] = refl
  count-insert_message p w (x ∷ l) = ground (arith, count-insert_message p w l)

  count-sort_messages :
      (p : Message → Bool) (l : List Message) → count p (sort_messages u l) ≡ count p l
  unfolding sort_messages
  count-sort_messages p [] = refl
  count-sort_messages p (w ∷ l) =
      omega (arith, count-insert_message p w (sort_messages u l), count-sort_messages p l)

  length-insert_message :
      (w : Message) (l : List Message) → length (insert_message u w l) ≡ suc (length l)
  unfolding insert_message
  length-insert_message w [] = refl
  length-insert_message w (x ∷ l) = ground (arith, length-insert_message w l)

  length-sort_messages : (l : List Message) → length (sort_messages u l) ≡ length l
  unfolding sort_messages
  length-sort_messages [] = refl
  length-sort_messages (w ∷ l) =
      omega (arith, length-insert_message w (sort_messages u l), length-sort_messages l)

  -- No message comes after its neighbour.
  unfoldable pub InOrder : List Message → Type 0
  InOrder [] = Unit
  InOrder (x ∷ []) = Unit
  InOrder (x ∷ y ∷ l) = (comes_after u x y ≡ false) × InOrder (y ∷ l)

  asymmetric : (a b : Message) → comes_after u a b ≡ true → comes_after u b a ≡ false
  unfolding comes_after
  asymmetric a b h = ground arith

  insert_message-InOrder :
      (w : Message) (l : List Message) → InOrder l → InOrder (insert_message u w l)
  unfolding insert_message InOrder
  insert_message-InOrder w [] h = tt
  insert_message-InOrder w (x ∷ []) h = elim (Bool-cases (comes_after u w x)) [
    | inl e ↦ rw e (asymmetric w x e, tt)
    | inr e ↦ rw e (e, tt)
  ]
  insert_message-InOrder w (x ∷ y ∷ l) (hxy, h) =
      let rest = insert_message-InOrder w (y ∷ l) h in
      elim (Bool-cases (comes_after u w x)) [
        | inl e ↦ elim (Bool-cases (comes_after u w y)) [
          | inl f ↦ rw (e, f) (hxy, rw f at rest)
          | inr f ↦ rw (e, f) (asymmetric w x e, (f, h))
        ]
        | inr e ↦ rw e (e, (hxy, h))
      ]

  sort_messages-InOrder : (l : List Message) → InOrder (sort_messages u l)
  unfolding sort_messages
  sort_messages-InOrder [] = unfold InOrder in tt
  sort_messages-InOrder (w ∷ l) =
      insert_message-InOrder w (sort_messages u l) (sort_messages-InOrder l)

  drop-InOrder : (n : ℕ) (l : List Message) → InOrder l → InOrder (drop n l)
  unfolding InOrder
  drop-InOrder zero l h = h
  drop-InOrder (suc n) [] h = tt
  drop-InOrder (suc n) (x ∷ []) h = drop-InOrder n [] tt
  drop-InOrder (suc n) (x ∷ y ∷ l) (hxy, h) = drop-InOrder n (y ∷ l) h

  count-drop : (p : Message → Bool) (n : ℕ) (l : List Message) → count p (drop n l) ≤ count p l
  count-drop p zero l = omega arith
  count-drop p (suc n) [] = omega arith
  count-drop p (suc n) (x ∷ l) = omega (arith, count-drop p n l)

  drop_nothing : (n : ℕ) (l : List Message) → n ≡ 0 → drop n l ≡ l
  drop_nothing zero l h = refl
  drop_nothing (suc n) l h = absurd (omega arith)

  length-put_ours : (l : List Message) (m : ByKey) → length (put_ours u l m) ≤ length l + length m
  unfolding put_ours
  length-put_ours [] m = omega arith
  length-put_ours (w ∷ l) m = omega (
    arith,
    length-put_ours l (set text_discrete (message_key u w) w m),
    length-set text_discrete (message_key u w) w m,
  )

  length-put_theirs :
      (l : List Message) (m : ByKey) → length (put_theirs u l m) ≤ length l + length m
  unfolding put_theirs
  length-put_theirs [] m = omega arith
  length-put_theirs (w ∷ l) m =
      let k = message_key u w in
      let v = met (get text_discrete k m) w in
      ground (
        arith,
        length-put_theirs l m,
        length-put_theirs l (set text_discrete k v m),
        length-set text_discrete k v m,
      )

  length-values_of : (m : ByKey) → length (values_of m) ≡ length m
  length-values_of [] = refl
  length-values_of (e ∷ m) = omega (arith, length-values_of m)

  module _ (ours theirs : List Message) where
    all_entries : ByKey
    all_entries = put_theirs u theirs (put_ours u ours [])

    sorted : List Message
    sorted = sort_messages u (values_of all_entries)

    count-sorted :
        (j : String)
        → count (has_key u j) sorted ≡ once (is_among u j ours || is_among_theirs u j theirs)
    unfolding sorted all_entries get
    count-sorted j =
        let none_yet : Filing [] = record { filed = unfold Filed in tt; single = λ j. refl } in
        let (ours_filed, ours_there) = put_ours_lem ours [] none_yet in
        let (filed, there) = put_theirs_lem theirs (put_ours u ours []) ours_filed in
        count-sort_messages (has_key u j) (values_of all_entries)
        ∙ filed.single j
        ∙ ap once (there j ∙ ap (λ b. b || is_among_theirs u j theirs) (ours_there j))

    sorted-InOrder : InOrder sorted
    unfolding sorted
    sorted-InOrder = sort_messages-InOrder (values_of all_entries)

    length-sorted : length sorted ≤ length ours + length theirs
    unfolding sorted all_entries
    length-sorted = omega (
      arith,
      length-sort_messages (values_of all_entries),
      length-values_of all_entries,
      length-put_theirs theirs (put_ours u ours []),
      length-put_ours ours [],
    )

    merged : merge_messages u ours theirs ≡ take_last message_limit sorted
    unfolding merge_messages sorted all_entries
    merged = refl

-- The messages of two devices, merged, are at most 500 and in order: none comes, by its time and
-- then its id, after the next. No key stands twice among them.
pub merge_messages-InOrder :
    (u : Platform) (ours theirs : List Message)
    → InOrder u (merge_messages u ours theirs)
      × (length (merge_messages u ours theirs) ≤ 500)
      × ((j : String) → count (has_key u j) (merge_messages u ours theirs) ≤ 1)
merge_messages-InOrder u ours theirs = rw (merged u ours theirs) (
  drop-InOrder u (length (sorted u ours theirs) - 500) (sorted u ours theirs)
      (sorted-InOrder u ours theirs),
  length-take_last 500 (sorted u ours theirs),
  λ j. ground (
    arith,
    count-drop u (has_key u j) (length (sorted u ours theirs) - 500) (sorted u ours theirs),
    count-sorted u ours theirs j,
  ),
)

-- When the two devices hold at most 500 messages together, the merged list holds just one message
-- for each key of ours and for each key of theirs that is not a trace of a call, and no other.
pub count-merge_messages :
    (u : Platform) (ours theirs : List Message) (j : String)
    → length ours + length theirs ≤ 500
    → count (has_key u j) (merge_messages u ours theirs)
      ≡ (if is_among u j ours || is_among_theirs u j theirs then 1 else 0)
count-merge_messages u ours theirs j small =
    ap (count (has_key u j)) (
      merged u ours theirs
      ∙ drop_nothing u (length (sorted u ours theirs) - 500) (sorted u ours theirs)
          (omega (arith, length-sorted u ours theirs)))
    ∙ count-sorted u ours theirs j
