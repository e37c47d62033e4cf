-- ===== src/Store/Consumers/Spelling.antt =====
-- createConsumerCmd (internal/store/consumer.go): a name that differs in letter case from one that is there.
use messq.Common.{
  ◌≡◌, refl, subst, ap, List, [], ◌∷◌, ◌++◌, true, false, Option, none, some, Bytes, codes, ok,
  ◌>>=◌, map_err, >>=-eq-ok, ok-inj, sym, ◌∙◌, ◌≢◌,
}
use messq.Queue.Types.{Duration, Time, unix_milli, ConsumerConfig}
use messq.Queue.Consumer.{ConsumerLimits, validate_consumer_config, validate_dead_policy_for_stream}
use messq.Store.Streams.Tables.{refused}
use messq.Store.Streams.Admin.{reaping, stream_event}
use messq.Store.Consumers.{
  event, ConsumerRow, ConsumerTables, store, config_of, set_config, consumer_config_diff, Created,
  require_stream, same_start, update_exact, rewrite_consumer, changed_config, found_row,
  create_consumer,
}
use messq.Store.Consumers.Start.{StartPosition, start_text}

cons-nil : {x : Bytes} {xs : List Bytes} → ◌≢◌ {A = List Bytes} (x ∷ xs) []
cons-nil h = cc

module _ (duration_text : Duration → Bytes) (now : Time) (l : ConsumerLimits) (stream : Bytes)
    (cfg : ConsumerConfig) where
  -- What such a creation leaves of the tables and answers: all as it was, where the configuration of
  -- the row that was found is the one asked for; and else the event of an update and nothing more,
  -- reported as an update.
  pub data OnlyReported (t : ConsumerTables) (other : ConsumerRow)
      : ConsumerTables × Created → Type 0 where
    same :
        consumer_config_diff (config_of other) cfg ≡ []
        → OnlyReported t other (t, record { created = false; updated = false; clamped = false })
    reported :
        consumer_config_diff (config_of other) cfg ≢ []
        → OnlyReported t other (
          record t {
            events = t.events ++ (stream_event (unix_milli now) (codes "consumer.update") ∷ []);
          },
          record { created = false; updated = true; clamped = false },
        )

  changed_config-OnlyReported :
      (other : ConsumerRow) (t : ConsumerTables) (diff : List Bytes)
      {out : ConsumerTables × Created}
      → t.row ≡ none
      → consumer_config_diff (config_of other) cfg ≡ diff
      → changed_config duration_text now l stream cfg other t diff ≡ ok out
      → OnlyReported t other out
  unfolding rewrite_consumer
  changed_config-OnlyReported other t [] missing e h =
      subst (OnlyReported t other) (ok-inj h) (same e)
  changed_config-OnlyReported other t (f ∷ fs) missing e h =
      let (_, _, rest) =
        >>=-eq-ok
          (map_err (λ e. store (refused e))
            (validate_dead_policy_for_stream stream cfg.dead_policy))
          _ h in
      let next : ConsumerConfig = record cfg { paused = other.paused } in
      let (_, _, done) =
        >>=-eq-ok
          (map_err (λ e. store (refused e)) (validate_consumer_config next l) >>= λ _. ok tt) _
          rest in
      let answer : Created = record { created = false; updated = true; clamped = false } in
      let no_row : update_exact (set_config next) t.row ≡ t.row =
        ap (update_exact (set_config next)) missing ∙ sym missing in
      subst (OnlyReported t other)
        (ap (λ row. (event now (codes "consumer.update") (record t { row = row }), answer))
            (sym no_row)
          ∙ ok-inj done)
        (reported (λ none_differs. cons-nil (sym e ∙ none_differs)))

  found_row-OnlyReported :
      (start : StartPosition) (t : ConsumerTables) (other : ConsumerRow)
      (row others : Option ConsumerRow) {out : ConsumerTables × Created}
      → t.row ≡ none
      → row ≡ none
      → others ≡ some other
      → found_row duration_text now l stream cfg start t row others ≡ ok out
      → OnlyReported t other out
  found_row-OnlyReported start t other row others missing none_row found h =
      let (_, _, last) =
        >>=-eq-ok (same_start t.start (start_text duration_text start)) _
          (rw (none_row, found) at h) in
      changed_config-OnlyReported other t (consumer_config_diff (config_of other) cfg) missing refl
        last

  -- A creation whose name differs only in letter case from a consumer that is there, where it succeeds,
  -- writes no row, that of the other name included. With the configuration that the other one has it
  -- changes nothing; with any other it writes the event of an update and answers that the consumer was
  -- updated.
  pub create_consumer-OnlyReported :
      (start : StartPosition) (t : ConsumerTables) (other : ConsumerRow)
      {out : ConsumerTables × Created}
      → t.row ≡ none
      → t.other_case ≡ some other
      → create_consumer duration_text now l stream cfg start t ≡ ok out
      → OnlyReported t other out
  unfolding create_consumer
  create_consumer-OnlyReported start t other missing found h =
      let (_, _, second) = >>=-eq-ok (map_err store (reaping t.reap)) _ h in
      let (_, _, third) = >>=-eq-ok (require_stream t.stream_exists) _ second in
      found_row-OnlyReported start t other t.row t.other_case missing missing found third
