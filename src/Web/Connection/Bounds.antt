-- ===== src/Web/Connection/Bounds.antt =====
-- The variables of a connection over runs (web/src/lib/polaczenie.ts).
use mekamb_chat.Common.{
  ℕ, ◌≤◌, ◌≡◌, refl, Bool-cases, Option-cases, inl, inr, leb, Bool, false, Option, none, some, List,
  [], ◌∷◌, arith,
}
use mekamb_chat.Web.Connection.{
  Link, Event, retries, ticks, drops, shuts, opened_up, errs, says, confirms, step, run, on_retry,
  on_tick, on_close, shut_down, on_open, on_error, on_message, connect, plan_retry, stop_ping,
  retry_min_ms, retry_max_ms, pings_unanswered, start,
}

abbrev pub WaitsWell : Bool → Option ℕ → Type 0
WaitsWell shut none = Unit {0}
WaitsWell shut (some d) = (retry_min_ms ≤ d) × (d ≤ retry_max_ms) × (shut ≡ false)

-- The time between retries is between one and thirty seconds, no retry waits once the connection
-- is shut, and at most two pings are unanswered.
pub record Bounded (s : Link) : Type 0 where
  pub at_least : retry_min_ms ≤ s.delay
  pub at_most : s.delay ≤ retry_max_ms
  pub waiting : WaitsWell s.shut s.retry
  pub pinged : s.unanswered ≤ pings_unanswered

step-Bounded : (e : Event) (s : Link) → Bounded s → Bounded (step e s).0
unfolding step on_retry on_tick on_close shut_down on_open on_error on_message connect plan_retry
    stop_ping
step-Bounded retries s h = elim (Option-cases s.retry) [
  | inl e ↦
      rw e (record { at_least = h.at_least; at_most = h.at_most; waiting = tt; pinged = h.pinged })
  | inr (d, e) ↦ elim (Bool-cases s.shut) [
    | inl c ↦
        rw (e, c)
          (record {
            at_least = ground (arith, h.at_least, h.at_most);
            at_most = ground (arith, h.at_most);
            waiting = tt;
            pinged = h.pinged;
          })
    | inr c ↦
        rw (e, c)
          (record {
            at_least = ground (arith, h.at_least, h.at_most);
            at_most = ground (arith, h.at_most);
            waiting = tt;
            pinged = h.pinged;
          })
  ]
]
step-Bounded ticks s h = elim (Option-cases s.ping) [
  | inl e ↦ rw e (record {
    at_least = h.at_least;
    at_most = h.at_most;
    waiting = h.waiting;
    pinged = h.pinged;
  })
  | inr (n, e) ↦ elim (Bool-cases (leb pings_unanswered s.unanswered)) [
    | inl c ↦
        rw (e, c)
          (record {
            at_least = h.at_least;
            at_most = h.at_most;
            waiting = h.waiting;
            pinged = h.pinged;
          })
    | inr c ↦
        rw (e, c)
          (record {
            at_least = h.at_least;
            at_most = h.at_most;
            waiting = h.waiting;
            pinged = ground arith;
          })
  ]
]
step-Bounded drops s h = elim (Bool-cases s.shut) [
  | inl c ↦ rw c (record {
    at_least = h.at_least;
    at_most = h.at_most;
    waiting = rw (← c) h.waiting;
    pinged = h.pinged;
  })
  | inr c ↦ elim (Option-cases s.retry) [
    | inl e ↦
        rw (c, e)
          (record {
            at_least = h.at_least;
            at_most = h.at_most;
            waiting = (h.at_least, h.at_most, refl);
            pinged = h.pinged;
          })
    | inr (d, e) ↦
        rw (c, e)
          (record {
            at_least = h.at_least;
            at_most = h.at_most;
            waiting = rw (c, e) at h.waiting;
            pinged = h.pinged;
          })
  ]
]
step-Bounded shuts s h = record {
  at_least = h.at_least;
  at_most = h.at_most;
  waiting = tt;
  pinged = h.pinged;
}
step-Bounded (opened_up n) s h = record {
  at_least = ground arith;
  at_most = ground arith;
  waiting = h.waiting;
  pinged = ground arith;
}
step-Bounded (errs n) s h = h
step-Bounded (says none) s h = record {
  at_least = h.at_least;
  at_most = h.at_most;
  waiting = h.waiting;
  pinged = ground arith;
}
step-Bounded (says (some frame)) s h = record {
  at_least = h.at_least;
  at_most = h.at_most;
  waiting = h.waiting;
  pinged = ground arith;
}
step-Bounded (confirms n is_open id) s h = h

start-Bounded : Bounded start.0
unfolding start connect
start-Bounded = record {
  at_least = ground arith;
  at_most = ground arith;
  waiting = tt;
  pinged = ground arith;
}

run_from-Bounded : (s : Link) (events : List Event) → Bounded s → Bounded (run s events).0
unfolding run
run_from-Bounded s [] h = h
run_from-Bounded s (e ∷ events) h = run_from-Bounded (step e s).0 events (step-Bounded e s h)

-- Whatever events come, a connection waits between one and thirty seconds before a retry, has no
-- retry planned once it is shut, and never has more than two pings unanswered.
pub run-Bounded : (events : List Event) → Bounded (run start.0 events).0
run-Bounded events = run_from-Bounded start.0 events start-Bounded
