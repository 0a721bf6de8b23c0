-- ===== src/Ledger.antt =====
-- src/nixadmin/ledger.py: the kept-well ledger, folded from events.
pub mod Fold
pub mod Streak
use nixadmin.Prelude.{
  ℕ, ◌+◌, ◌-◌, ◌*◌, ◌/◌, String, ◌<>◌, Bool, true, false, ◌&&◌, ◌||◌, Option, none, some, List, [],
  ◌∷◌, ltb, eqb, ◌==◌, string_eq, if◌then◌else◌,
}
use nixadmin.Prelude.Text.{decimal}
use nixadmin.Json.{get, is_str}
use nixadmin.Store.{Event}

-- DAY_S, in ticks of a microsecond.
abbrev pub day : ℕ
day = 86_400_000_000

abbrev pub default_window_days : ℕ
default_window_days = 30

abbrev pub ledger_scan_limit : ℕ
ledger_scan_limit = 1000

-- `_is_attention_moment`, with `_MANUAL_RESTART_SOURCES`
unfoldable pub is_attention_moment : Event → Bool
is_attention_moment ev =
    if ev.kind == "autofix"
    then is_str "inform" (get "action" ev.meta) || is_str "still_failing" (get "outcome" ev.meta)
    else if ev.kind == "restart"
    then is_str "tray" (get "source" ev.meta) || is_str "query" (get "source" ev.meta)
    else false

pub record Ledger : Type 0 where
  pub streak_days : ℕ
  pub healthy_now : Bool
  pub since_ts : Option ℕ
  pub auto_restarts : ℕ
  pub recoveries : ℕ
  pub attention : ℕ
  pub headline : String
  pub tally : List String

-- The variables of the loop in `summarize`.
pub record Scan : Type 0 where
  pub last_attention : Option ℕ
  pub earliest_seen : Option ℕ
  pub auto_restarts : ℕ
  pub recoveries : ℕ
  pub attention : ℕ

abbrev pub start : Scan
start = record {
  last_attention = none;
  earliest_seen = none;
  auto_restarts = 0;
  recoveries = 0;
  attention = 0;
}

-- if earliest_seen is None or ts < earliest_seen
unfoldable pub earlier : ℕ → Option ℕ → Option ℕ
earlier ts none = some ts
earlier ts (some t) = if ltb ts t then some ts else some t

-- if last_attention is None or ts > last_attention
unfoldable pub later : ℕ → Option ℕ → Option ℕ
later ts none = some ts
later ts (some t) = if ltb t ts then some ts else some t

unfoldable pub is_healed : Event → Bool
is_healed ev = is_str "restart" (get "action" ev.meta) && is_str "healthy" (get "outcome" ev.meta)

unfoldable pub is_auto_restart : Event → Bool
is_auto_restart ev = ev.kind == "autofix" && is_healed ev

-- The body of the loop in `summarize`.
unfoldable pub scan : ℕ → Scan → Event → Scan
unfolding later earlier
scan window_start s ev =
    let attn = is_attention_moment ev in
    let seen : Scan = record s {
      earliest_seen = earlier ev.ts s.earliest_seen;
      last_attention = if attn then later ev.ts s.last_attention else s.last_attention;
    } in
    if ltb ev.ts window_start then seen else record seen {
      auto_restarts = if is_auto_restart ev then s.auto_restarts + 1 else s.auto_restarts;
      recoveries =
          if is_auto_restart ev
          then s.recoveries
          else if ev.kind == "failure_cleared"
          then s.recoveries + 1
          else s.recoveries;
      attention = if attn then s.attention + 1 else s.attention;
    }

unfoldable pub scan_all : ℕ → Scan → List Event → Scan
scan_all window_start s [] = s
scan_all window_start s (ev ∷ evs) = scan_all window_start (scan window_start s ev) evs

-- `_plural`
plural : ℕ → String → String
plural n noun = if eqb n 1 then decimal n <> " " <> noun else decimal n <> " " <> noun <> "s"

-- `_headline`
unfoldable pub headline_of : ℕ → Bool → Option ℕ → String
unfolding plural
headline_of streak_days healthy_now none = "Just getting started."
headline_of streak_days false (some since) = "Something needs a hand right now."
headline_of streak_days true (some since) =
    if eqb streak_days 0
    then "Looking after itself today."
    else "Looked after itself for " <> plural streak_days "day" <> "."

-- `_tally`
unfoldable pub tally_of : ℕ → List String
unfolding plural
tally_of auto_restarts =
    if eqb auto_restarts 0
    then []
    else ("quietly restarted " <> plural auto_restarts "service") ∷ []

-- max(0, int((now - since) // DAY_S)): the difference stops at 0 as the maximum does
unfoldable pub days_since : ℕ → ℕ → ℕ
days_since now since = (now - since) / day

-- since and streak_days, from the last attention moment and the floor
unfoldable pub streak : ℕ → Bool → Option ℕ → Option ℕ → Option ℕ × ℕ
streak now false last_attention floor = (some now, 0)
streak now true (some since) floor = (some since, days_since now since)
streak now true none (some since) = (some since, days_since now since)
streak now true none none = (none, 0)

-- The authoritative floor if it is given, else the earliest row that was seen.
unfoldable pub or_else : Option ℕ → Option ℕ → Option ℕ
or_else none other = other
or_else (some t) other = some t

-- The end of `summarize`, after the loop.
unfoldable pub report : ℕ → ℕ → Option ℕ → Scan → Ledger
unfolding streak or_else
report now current_failures earliest_ts s =
    let healthy_now = eqb current_failures 0 in
    let (since, days) =
      streak now healthy_now s.last_attention (or_else earliest_ts s.earliest_seen) in
    record {
      streak_days = days;
      healthy_now = healthy_now;
      since_ts = since;
      auto_restarts = s.auto_restarts;
      recoveries = s.recoveries;
      attention = s.attention;
      headline = headline_of days healthy_now since;
      tally = tally_of s.auto_restarts;
    }

-- `summarize`; the window starts at `now - window_days * DAY_S`, at 0 if that is negative, and no
-- time is negative.
unfoldable pub summarize : List Event → ℕ → ℕ → Option ℕ → ℕ → Ledger
summarize events now current_failures earliest_ts window_days =
    report now current_failures earliest_ts (scan_all (now - window_days * day) start events)
