-- ===== src/Server/Inbox/Acknowledge.antt =====
-- What an acknowledgement does to the backlog of each device (server/src/inbox.ts, `acknowledge`,
-- `sprzatnij`, `flushTo`).
use mathlib.Core.Path.{subst₂}
use mekamb_chat.Common.{
  ℕ, ◌≡◌, refl, sym, ap, ◌∙◌, String, Bool, true, false, not, ◌&&◌, ◌||◌, List, [], ◌∷◌, arith, leb,
  ◌==◌, if◌then◌else◌, text_eqb, filter, any, All, All-mono, count, any-append, filter_congr,
  filter_congr_All, filter-filter, Bool-cases, inl, inr,
}
use mekamb_chat.Server.Inbox.{
  Inbox, Envelope, Device, Read, has_read, insert_read, touch, register_device, is_live, live_reads,
  forget_orphans, clean_up, acknowledge, pending,
}
use mekamb_chat.Server.Inbox.Counting.{UniqueReads, everyone_read, live_reads-everyone}
use mekamb_chat.Server.Inbox.Invariant.{Inv, insert_read-UniqueReads}

-- What `sprzatnij` should keep: everything while no device counts, and otherwise the envelopes
-- that some device which counts has yet to read.
abbrev pub unread_by_some : Inbox → ℕ → List Envelope
unread_by_some s now =
    if count (is_live now) s.devices == 0
    then s.queue
    else filter (λ e. not (everyone_read now s.devices s.reads e.id)) s.queue

-- Where no pair stands in `device_reads` twice, cleaning up deletes exactly the envelopes that
-- every device seen within the retention time has read, and nothing while there is no such device.
pub clean_up-queue :
    (s : Inbox) (now : ℕ) → UniqueReads s.reads → (clean_up s now).queue ≡ unread_by_some s now
unfolding clean_up forget_orphans
clean_up-queue s now h = elim (Bool-cases (count (is_live now) s.devices == 0)) [
  | inl e ↦ rw e
  | inr e ↦
      rw e
        (filter_congr _ _ s.queue (λ x. ap not (live_reads-everyone now s.devices s.reads x.id h)))
]

-- The device has a row that counts.
abbrev pub is_counted : ℕ → String → List Device → Bool
is_counted now d us = any (λ u. text_eqb u.device_id d && is_live now u) us

pub everyone_read-has_read :
    (now : ℕ) (d : String) (i : ℕ) (rs : List Read) (us : List Device)
    → is_counted now d us ≡ true
    → has_read d i rs ≡ false
    → everyone_read now us rs i ≡ false
everyone_read-has_read now d i rs [] h k = cc
everyone_read-has_read now d i rs (u ∷ us) h k =
    ground (arith, everyone_read-has_read now d i rs us, text_eqb→eq' u.device_id)
  where
    text_eqb→eq' : (c : String) → text_eqb c d ≡ true → has_read c i rs ≡ false
    text_eqb→eq' c e = ground arith

pub count_pos :
    (now : ℕ) (d : String) (us : List Device)
    → is_counted now d us ≡ true
    → (count (is_live now) us == 0) ≡ false
count_pos now d [] h = cc
count_pos now d (u ∷ us) h = ground (arith, count_pos now d us)

-- Forgetting orphans is not seen at the ids of the queue.
has_read-orphans :
    (d : String) (i : ℕ) (q : List Envelope) (rs : List Read)
    → has_read d i (filter (λ r. any (λ e. e.id == r.envelope_id) q) rs)
      ≡ (has_read d i rs && any (λ e. e.id == i) q)
has_read-orphans d i q [] = refl
has_read-orphans d i q (r ∷ rs) = ground (arith, has_read-orphans d i q rs)

any_self : (q : List Envelope) → All (λ e. any (λ x. x.id == e.id) q ≡ true) q
any_self [] = tt
any_self (e ∷ es) = (
  ground arith,
  All-mono (λ x. any (λ y. y.id == x.id) es ≡ true) _ es (λ x h. ground arith) (any_self es),
)

pending-forget_orphans : (t : Inbox) (d : String) → pending (forget_orphans t) d ≡ pending t d
unfolding pending forget_orphans
pending-forget_orphans t d = filter_congr_All _ _ t.queue (
    All-mono _ _ t.queue (λ e h. rw (has_read-orphans d e.id t.queue t.reads) (ground arith))
      (any_self t.queue))

-- What the query deletes, every device that counts has read.
kept_or_read :
    (s : Inbox) (now : ℕ) (d : String) (i : ℕ)
    → UniqueReads s.reads
    → is_counted now d s.devices ≡ true
    → (not (leb (count (is_live now) s.devices) (live_reads now s.devices s.reads i))
        && not (has_read d i s.reads))
      ≡ not (has_read d i s.reads)
kept_or_read s now d i h c =
    rw (live_reads-everyone now s.devices s.reads i h)
      (ground (arith, everyone_read-has_read now d i s.reads s.devices c))

-- Cleaning up takes nothing from a device that counts.
pub pending-clean_up :
    (s : Inbox) (now : ℕ) (d : String)
    → UniqueReads s.reads
    → is_counted now d s.devices ≡ true
    → pending (clean_up s now) d ≡ pending s d
unfolding clean_up
pending-clean_up s now d h c = rw (count_pos now d s.devices c) (
    pending-forget_orphans _ d
    ∙ unfold pending in
      (filter-filter _ _ s.queue ∙ filter_congr _ _ s.queue (λ e. kept_or_read s now d e.id h c)))

pub touch-is_counted :
    (now : ℕ) (d : String) (us : List Device) → is_counted now d (touch d now us) ≡ true
unfolding touch
touch-is_counted now d [] = ground arith
touch-is_counted now d (u ∷ us) = ground (arith, touch-is_counted now d us)

pub touch-is_counted_ne :
    (now : ℕ) (d c : String) (us : List Device)
    → text_eqb d c ≡ false
    → is_counted now c (touch d now us) ≡ is_counted now c us
unfolding touch
touch-is_counted_ne now d c [] h = ground arith
touch-is_counted_ne now d c (u ∷ us) h = ground (arith, touch-is_counted_ne now d c us h)

has_read_same :
    (d c : String) (i j : ℕ) (rs : List Read)
    → (text_eqb d c && i == j) ≡ true
    → has_read d i rs ≡ true
    → has_read c j rs ≡ true
has_read_same d c i j rs same old =
    let d-eq : d ≡ c = ground arith in
    let i-eq : i ≡ j = ground arith in subst₂ (λ x y. has_read x y rs ≡ true) d-eq i-eq old

pub has_read-insert :
    (d c : String) (i j : ℕ) (rs : List Read)
    → has_read c j (insert_read d i rs) ≡ (has_read c j rs || (text_eqb d c && i == j))
has_read-insert d c i j rs = elim (Bool-cases (has_read d i rs)) [
  | inl old ↦ rw old (elim (Bool-cases (text_eqb d c && i == j)) [
    | inl same ↦ rw same (ground (arith, has_read_same d c i j rs same old))
    | inr other ↦ rw other (ground arith)
  ])
  | inr new ↦ rw new (any-append _ rs _ ∙ ground arith)
]

-- Where the tables are well formed, an acknowledgement takes from the backlog of its own device the
-- envelope it names, and that alone: one skipped before it stays, and comes again with the next
-- connection.
pub pending-acknowledge_own :
    (s : Inbox) (i : ℕ) (d : String) (now : ℕ)
    → Inv s
    → pending (acknowledge s i d now) d ≡ filter (λ e. not (e.id == i)) (pending s d)
unfolding acknowledge register_device
pending-acknowledge_own s i d now v =
    pending-clean_up _ now d (insert_read-UniqueReads d i s.reads v.reads_unique)
      (touch-is_counted now d s.devices)
    ∙ unfold pending in
      (filter_congr _ (λ e. not (has_read d e.id s.reads) && not (e.id == i)) s.queue
          (λ e. rw (has_read-insert d d i e.id s.reads) (ground arith))
        ∙ sym (filter-filter _ _ s.queue))

-- Where the tables are well formed, an acknowledgement takes nothing from the backlog of any other
-- device that was seen within the retention time.
pub pending-acknowledge_other :
    (s : Inbox) (i : ℕ) (d c : String) (now : ℕ)
    → Inv s
    → text_eqb d c ≡ false
    → is_counted now c s.devices ≡ true
    → pending (acknowledge s i d now) c ≡ pending s c
unfolding acknowledge register_device
pending-acknowledge_other s i d c now v h k =
    pending-clean_up _ now c (insert_read-UniqueReads d i s.reads v.reads_unique)
      (touch-is_counted_ne now d c s.devices h ∙ k)
    ∙ unfold pending in
      (filter_congr _ _ s.queue (λ e. rw (has_read-insert d c i e.id s.reads) (ground arith)))
