-- ===== src/Web/Connection/Retries.antt =====
-- Retries, silence and shutting of a connection (web/src/lib/polaczenie.ts).
use mekamb_chat.Common.{
  ℕ, zero, suc, ◌*◌, ◌^◌, ◌≡◌, refl, ◌∙◌, ap, min, Option-cases, inl, inr, Bool, true, false, none,
  some, List, [], ◌∷◌, arith, any, any-append,
}
use mekamb_chat.Web.Connection.{
  Link, Act, shows, opens, closes, connected, pings, Event, retries, ticks, drops, shuts, opened_up,
  errs, says, confirms, step, run, on_retry, on_tick, on_close, shut_down, on_open, on_error,
  on_message, acknowledge, connect, plan_retry, stop_ping, retry_min_ms, retry_max_ms,
}

abbrev pub is_opening : Act → Bool
is_opening (opens n) = true
is_opening _ = false

step_shut :
    (e : Event) (s : Link)
    → s.shut ≡ true
    → ((step e s).0.shut ≡ true) × (any is_opening (step e s).1 ≡ false)
unfolding step on_retry on_tick on_close shut_down on_open on_error on_message connect plan_retry
    stop_ping acknowledge
step_shut retries s h = elim (Option-cases s.retry) [
  | inl e ↦ rw (e, h) (refl, refl)
  | inr (d, e) ↦ rw (e, h) (refl, refl)
]
step_shut ticks s h = ground arith
step_shut drops s h = ground arith
step_shut shuts s h = ground arith
step_shut (opened_up n) s h = ground arith
step_shut (errs n) s h = ground arith
step_shut (says none) s h = ground arith
step_shut (says (some frame)) s h = ground arith
step_shut (confirms n true id) s h = ground arith
step_shut (confirms n false id) s h = ground arith

-- A connection that is shut opens no socket again, whatever events still come.
pub stays_shut :
    (s : Link) (events : List Event) → s.shut ≡ true → any is_opening (run s events).1 ≡ false
unfolding run
stays_shut s [] h = refl
stays_shut s (e ∷ events) h =
    let (still, quiet) = step_shut e s h in
    let later = stays_shut (step e s).0 events still in
    ground (arith, any-append is_opening (step e s).1 (run (step e s).0 events).1)

-- m ticks of the interval and nothing else.
abbrev pub silence : ℕ → List Event
silence zero = []
silence (suc m) = ticks ∷ silence m

idle_ticks : (m : ℕ) (s : Link) → s.ping ≡ none → (run s (silence m)).1 ≡ []
unfolding run step on_tick
idle_ticks zero s h = refl
idle_ticks (suc m) s h = rw h (idle_ticks m (record s { ping = none }) refl)

-- A socket that opens and then stays silent is pinged twice and closed by the third tick of the
-- interval, once, however many ticks follow.
pub silent_closed :
    (n m : ℕ) (s : Link)
    → (run s (opened_up n ∷ silence (suc (suc (suc m))))).1
      ≡ shows connected ∷ pings n ∷ pings n ∷ closes n ∷ []
unfolding run step on_open on_tick stop_ping
silent_closed n m s =
    ap (λ acts. shows connected ∷ pings n ∷ pings n ∷ closes n ∷ acts)
      (idle_ticks m
        (record {
          socket = s.socket;
          ping = none;
          retry = s.retry;
          delay = retry_min_ms;
          shut = s.shut;
          unanswered = 2;
          opened = s.opened;
        })
        refl)

-- A socket that is refused or lost, and the retry after it, n times.
abbrev pub failures : ℕ → List Event
failures zero = []
failures (suc n) = drops ∷ retries ∷ failures n

-- n more failures, each doubling the time that is waited up to the greatest.
abbrev pub doubled : ℕ → ℕ → ℕ
doubled zero d = d
doubled (suc n) d = doubled n (min (d * 2) retry_max_ms)

failures_delay :
    (n : ℕ) (s : Link)
    → s.shut ≡ false
    → s.retry ≡ none
    → (run s (failures n)).0.delay ≡ doubled n s.delay
unfolding run step on_close on_retry plan_retry stop_ping connect
failures_delay zero s h k = refl
failures_delay (suc n) s h k =
    rw (h, k)
      (failures_delay n
        (record {
          socket = some s.opened;
          ping = none;
          retry = none;
          delay = min (s.delay * 2) retry_max_ms;
          shut = false;
          unanswered = s.unanswered;
          opened = suc s.opened;
        })
        refl refl)

double_pow : (n d : ℕ) → d * 2 * 2 ^ n ≡ d * 2 ^ suc n
double_pow n d = grind arith

doubled-min : (n d : ℕ) → doubled n (min d retry_max_ms) ≡ min (d * 2 ^ n) retry_max_ms
doubled-min zero d = ground arith
doubled-min (suc n) d =
    let once : min (min d retry_max_ms * 2) retry_max_ms ≡ min (d * 2) retry_max_ms =
      ground arith in
    rw once (doubled-min n (d * 2) ∙ ap (λ t. min t retry_max_ms) (double_pow n d))

-- The time before a retry doubles from one second with each failure since the last success, and
-- stops at thirty: in a connection that is not shut and plans no retry, a socket that opened and
-- then any number n of failures, each followed by its retry, leave a wait of min (1000 · 2ⁿ) 30000
-- milliseconds.
pub backoff :
    (n socket : ℕ) (s : Link)
    → s.shut ≡ false
    → s.retry ≡ none
    → (run (on_open socket s).0 (failures n)).0.delay ≡ min (retry_min_ms * 2 ^ n) retry_max_ms
unfolding on_open stop_ping
backoff n socket s h k = failures_delay n _ h k ∙ doubled-min n retry_min_ms
