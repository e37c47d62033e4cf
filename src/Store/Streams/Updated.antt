-- ===== src/Store/Streams/Updated.antt =====
-- updateStreamCmd (internal/store/commands.go, update.go): what an accepted update leaves in place.
use messq.Common.{
  ℕ, ◌≡◌, ◌≢◌, inl, inr, Bool, true, refl, sym, ap, ◌∙◌, subst, List, [], ◌∷◌, length, false,
  Option, none, some, Bytes, ℤ, pos, Result, ok, err, >>=-eq-ok, ok-inj, map_err, arith,
  if◌then◌else◌,
}
use messq.Queue.Types.{StreamConfig, Retention, limits, workqueue}
use messq.Queue.Config.{Limits, validate_stream_config}
use messq.Queue.Update.{Usage, validate_update}
use messq.Queue.Update.Safety.{NoTighter, validate_update-keeps}
use messq.Store.Streams.Tables.{StreamRow, Tables, refused}
use messq.Store.Streams.Admin.{row_of_config, config_of_row}
use messq.Store.Streams.Patch.{
  StreamPatch, apply_patch, measure_usage, stats_of, subjects_changed, count_unmatched,
  UpdateResult, patch_row, patched, update_row, update_stream,
}
use messq.Store.Streams.Accounts.{IsLive, IsConsistent, total_size}

-- What an update that is not allowed to lose data keeps, of a stream with these messages and bytes.
abbrev pub Keeps : StreamRow → StreamRow → ℕ × ℕ → Type 0
Keeps before after (msgs, bytes) =
    NoTighter before.max_msgs after.max_msgs (pos msgs)
    × NoTighter before.max_bytes after.max_bytes (pos bytes)
    × (¬ ((before.retention ≡ limits) × (after.retention ≡ workqueue)))

abbrev pub KeepsUnless : Bool → StreamRow → StreamRow → ℕ × ℕ → Type 0
KeepsUnless true before after held = Unit
KeepsUnless false before after held = Keeps before after held

-- The update has written the row of `streams` and its audit, and nothing else.
abbrev pub WritesRow : Tables → Tables → Type 0
WritesRow t t' = t' ≡ record t { row = t'.row; events = t'.events }

-- The row before and the row after, of a stream that holds what its counters say.
pub record IsUpdated (allow_loss : Bool) (t t' : Tables) : Type 0 where
  pub before : StreamRow
  pub after : StreamRow
  pub was : t.row ≡ some before
  pub is : t'.row ≡ some after
  pub only : WritesRow t t'
  pub name_kept : after.name ≡ before.name
  pub room : KeepsUnless allow_loss before after (length t.messages, total_size t.messages)

map_err-ok :
    {E F A : Type 0} (f : E → F) (call : Result E A) {a : A} → map_err f call ≡ ok a → call ≡ ok a
map_err-ok f (ok b) h = ap ok (ok-inj h)
map_err-ok f (err e) h = cc

stats_are-read :
    (t : Tables) (stats : Option (ℕ × ℕ)) (s s' : ℕ × ℕ)
    → stats_of t stats ≡ ok s
    → stats ≡ some s'
    → s ≡ s'
stats_are-read t none s s' h e = cc
stats_are-read t (some x) s s' h e = cc

NoTighter-refl : (a used : ℤ) → NoTighter a a used
NoTighter-refl a used = ground arith

not_both : (r : Retention) → ¬ ((r ≡ limits) × (r ≡ workqueue))
not_both r (e, e') = cc

keeps_room :
    (allow_loss : Bool) (row : StreamRow) (next : StreamConfig) (u : Usage) (stats : ℕ × ℕ)
    → u.msgs ≡ pos stats.0
    → u.bytes ≡ pos stats.1
    → map_err refused (validate_update (config_of_row row) next u allow_loss) ≡ ok tt
    → KeepsUnless allow_loss row
        (row_of_config row.created_at (record next { name = row.name }))
        stats
unfolding config_of_row row_of_config
keeps_room true row next u stats msgs bytes h = tt
keeps_room false row next u (a, b) msgs bytes h =
    let kept = validate_update-keeps (config_of_row row) next u (map_err-ok refused _ h) in
    (
      subst (NoTighter row.max_msgs next.max_msgs) msgs kept.1,
      subst (NoTighter row.max_bytes next.max_bytes) bytes kept.2,
      kept.3,
    )

keeps_same :
    (allow_loss : Bool) (row : StreamRow) (stats : ℕ × ℕ) → KeepsUnless allow_loss row row stats
keeps_same true row stats = tt
keeps_same false row (a, b) = (
  NoTighter-refl row.max_msgs (pos a),
  NoTighter-refl row.max_bytes (pos b),
  not_both row.retention,
)

patch_row-IsUpdated :
    (l : Limits) (allow_loss : Bool) (now : ℤ) (t t' : Tables) (row : StreamRow)
    (next : StreamConfig) (fields : List Bytes) (res : UpdateResult)
    → patch_row l allow_loss now t row next fields ≡ ok (t', res)
    → t.row ≡ some row
    → IsLive t
    → IsUpdated allow_loss t t'
unfolding patch_row row_of_config config_of_row measure_usage
patch_row-IsUpdated l allow_loss now t t' row next fields res h was live =
    let (_, valid, h) = >>=-eq-ok (map_err refused (validate_stream_config next l)) _ h in
    let (stats, read, h) = >>=-eq-ok (stats_of t t.stats) _ h in
    let (_, allowed, h) =
      >>=-eq-ok
        (map_err refused (
          validate_update (config_of_row row) next (measure_usage next now t.messages stats)
            allow_loss))
        _ h in
    let (narrowed, counted, h) =
      >>=-eq-ok
        (if subjects_changed row.subjects next.subjects
          then count_unmatched next.subjects t.messages
          else ok 0)
        _ h in
    let same = stats_are-read t t.stats stats _ read live.stats_are in
    let done = sym (ap (λ p. p.0) (ok-inj h)) in
    let after = row_of_config row.created_at (record next { name = row.name }) in
    record {
      before = row;
      after = after;
      was = was;
      is = ap (λ u. u.row) done;
      only = subst (WritesRow t) (sym done) refl;
      name_kept = refl;
      room = subst (KeepsUnless allow_loss row after) same (
          keeps_room allow_loss row next (measure_usage next now t.messages stats) stats refl refl
            allowed);
    }

patched-IsUpdated :
    (l : Limits) (allow_loss : Bool) (now : ℤ) (t t' : Tables) (row : StreamRow)
    (laid_out : StreamConfig × List Bytes) (res : UpdateResult)
    → patched l allow_loss now t row laid_out ≡ ok (t', res)
    → t.row ≡ some row
    → IsLive t
    → IsUpdated allow_loss t t'
patched-IsUpdated l allow_loss now t t' row (next, []) res h was live =
    let (stats, read, h) = >>=-eq-ok (stats_of t t.stats) _ h in
    let done : t' ≡ t = sym (ap (λ p. p.0) (ok-inj h)) in
    record {
      before = row;
      after = row;
      was = was;
      is = ap (λ u. u.row) done ∙ was;
      only = subst (WritesRow t) (sym done) refl;
      name_kept = refl;
      room = keeps_same allow_loss row (length t.messages, total_size t.messages);
    }
patched-IsUpdated l allow_loss now t t' row (next, f ∷ fs) res h was live =
    patch_row-IsUpdated l allow_loss now t t' row next (f ∷ fs) res h was live

update_row-IsUpdated :
    (l : Limits) (allow_loss : Bool) (now : ℤ) (p : StreamPatch) (t t' : Tables)
    (row : Option StreamRow) (res : UpdateResult)
    → update_row l allow_loss now p t row ≡ ok (t', res)
    → t.row ≡ row
    → IsLive t
    → IsUpdated allow_loss t t'
update_row-IsUpdated l allow_loss now p t t' none res h was live = cc
update_row-IsUpdated l allow_loss now p t t' (some row) res h was live =
    patched-IsUpdated l allow_loss now t t' row (apply_patch (config_of_row row) p) res h was live

-- An accepted update of a stream whose counters are right writes nothing but its row and the audit,
-- and the row keeps its name. Without leave to lose data it has room for every stored message and byte
-- unless the old limit was as tight, and does not turn a stream of limits into a work queue.
pub update_stream-IsUpdated :
    (l : Limits) (allow_loss : Bool) (now : ℤ) (p : StreamPatch) (t t' : Tables)
    (res : UpdateResult)
    → update_stream l allow_loss now p t ≡ ok (t', res)
    → IsLive t
    → IsUpdated allow_loss t t'
unfolding update_stream
update_stream-IsUpdated l allow_loss now p t t' res h live =
    update_row-IsUpdated l allow_loss now p t t' t.row res h refl live

update_row-present :
    (l : Limits) (allow_loss : Bool) (now : ℤ) (p : StreamPatch) (t : Tables)
    (row : Option StreamRow) (a : Tables × UpdateResult)
    → update_row l allow_loss now p t row ≡ ok a
    → row ≢ none
update_row-present l allow_loss now p t none a h e = cc
update_row-present l allow_loss now p t (some row) a h e = cc

-- An accepted update leaves the counters, the numbers and the marker of a deletion as they were.
pub update_stream-IsConsistent :
    (l : Limits) (allow_loss : Bool) (now : ℤ) (p : StreamPatch) (t t' : Tables)
    (res : UpdateResult)
    → update_stream l allow_loss now p t ≡ ok (t', res)
    → IsConsistent t
    → IsConsistent t' × WritesRow t t'
unfolding update_stream
update_stream-IsConsistent l allow_loss now p t t' res h (inr gone) =
    absurd (update_row-present l allow_loss now p t t.row (t', res) h gone.no_row)
update_stream-IsConsistent l allow_loss now p t t' res h (inl live) =
    let updated = update_stream-IsUpdated l allow_loss now p t t' res h live in
    (
      inl (
          subst IsLive (sym updated.only) record {
            config = updated.after;
            free = live.free;
            row_is = updated.is;
            next_is = live.next_is;
            stats_are = live.stats_are;
            below = live.below;
            no_marker = live.no_marker;
          }),
      updated.only,
    )
