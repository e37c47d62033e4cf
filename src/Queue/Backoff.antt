-- ===== src/Queue/Backoff.antt =====
-- internal/queue/backoff.go: the retry schedule, and the delay that a nak asks for.
use messq.Common.{
  ℕ, ◌-◌, ◌*◌, ◌||◌, Option, none, some, pos, ltb_ℤ, leb, ◌==◌, if◌then◌else◌, length, get_or,
  Result, ok, err,
}
use messq.Errs.{bad_request}
use messq.Queue.Types.{Error, sentinel, Duration, second, Jitter, ConsumerConfig}

-- The index of the schedule's entry: `attempt - 1`, kept inside a schedule of `n` entries.
unfoldable pub schedule_index : ℕ → ℕ → ℕ
schedule_index attempt n =
    if attempt == 0 then 0 else if leb n (attempt - 1) then n - 1 else attempt - 1

-- An empty schedule gives no delay.
unfoldable pub backoff_for : ConsumerConfig → ℕ → Duration
unfolding schedule_index
backoff_for c attempt = get_or c.backoff (schedule_index attempt (length c.backoff)) (pos 0)

abbrev pub max_nak_delay : Duration
max_nak_delay = pos (86_400 * second)

-- The jittered delay; without a jitter the delay itself.
abbrev pub jittered : Option Jitter → Duration → Duration
jittered none d = d
jittered (some j) d = j d

unfoldable pub release_delay :
    ConsumerConfig → ℕ → Option Duration → Option Jitter → Result Error Duration
unfolding backoff_for
release_delay c attempt (some d) j =
    if ltb_ℤ d (pos 0) || ltb_ℤ max_nak_delay d then err (sentinel bad_request) else ok d
release_delay c attempt none j = ok (jittered j (backoff_for c attempt))
