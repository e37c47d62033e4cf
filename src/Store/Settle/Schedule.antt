-- ===== src/Store/Settle/Schedule.antt =====
-- loadSettleConsumer (internal/store/settle_impl.go): which retry schedule a nak follows.
use messq.Common.{ℕ, zero, suc, ◌≤◌, ◌≡◌, refl, length, some, Bytes, arith}
use messq.Queue.Types.{default_consumer_config}
use messq.Queue.Backoff.{backoff_for, schedule_index}
use messq.Store.Settle.{ConsumerColumns, load_settle_consumer, to_durations}

-- A nak of one of the first five attempts waits as long as the default schedule says, whatever
-- schedule the consumer is configured with.
pub load_settle_consumer-default_schedule :
    (name : Bytes) (columns : ConsumerColumns) (attempt : ℕ)
    → attempt ≤ 5
    → backoff_for (load_settle_consumer name (some columns)).cfg attempt
      ≡ backoff_for (default_consumer_config name) attempt
unfolding load_settle_consumer backoff_for schedule_index
load_settle_consumer-default_schedule name c attempt le = go attempt le
  where
    more : ℕ
    more = length (to_durations c.backoff_ms)

    go :
        (attempt : ℕ)
        → attempt ≤ 5
        → backoff_for (load_settle_consumer name (some c)).cfg attempt
          ≡ backoff_for (default_consumer_config name) attempt
    go zero le = refl
    go (suc zero) le = ground arith
    go (suc (suc zero)) le = ground arith
    go (suc (suc (suc zero))) le = ground arith
    go (suc (suc (suc (suc zero)))) le = ground arith
    go (suc (suc (suc (suc (suc zero))))) le = ground arith
    go (suc (suc (suc (suc (suc (suc n)))))) le = absurd (omega arith)
