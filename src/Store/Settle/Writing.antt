-- ===== src/Store/Settle/Writing.antt =====
-- applyOne (internal/store/settle.go): what it can have done to the table, whatever it answers.
use messq.Common.{
  ℕ, ◌≡◌, sym, List, Bool, ◌&&◌, not, Option, Result, arith, Result-cases, Bool-cases, >>=-eq-ok,
  ok-inj, ℤ, inl, inr, Bytes,
}
use messq.Queue.Types.{Time}
use messq.Queue.Token.{Token}
use messq.Queue.Settle.{
  SettlePlan, plan_settle, noop, act_ack, act_release, act_extend, act_dead, SettleAction,
  ItemStatus, stale, is_ready, stale_ack, wrong_generation, unknown, ready,
}
use messq.Store.Rows.{DeliveryRow}
use messq.Store.Settle.{
  SettleConsumer, SettleItem, Event, ItemResult, SettleState, SettleCmd, row_of, fence,
  delete_where, update_where, changed,
}
use messq.Store.Settle.Action.{apply_action, delete_fenced, release_fenced, extend_fenced}
use messq.Store.Settle.Apply.{
  apply_one, planned, answer, granted, request, row_or_blank, reject_dup, reject_stale,
}
use messq.Store.Settle.Writes.{plan_settle-error}

abbrev pub released_row : ℤ → Bytes → DeliveryRow → DeliveryRow
released_row visible reason r = record r {
  state = ready;
  visible_at = visible;
  last_reason = reason;
}

abbrev pub extended_row : ℤ → DeliveryRow → DeliveryRow
extended_row visible r = record r { visible_at = visible }

abbrev pub extend_fence : Token → DeliveryRow → Bool
extend_fence t r = fence t r && not (is_ready r.state)

-- A relation between the tables before and after that each of the four statements keeps.
pub record Written {ℓ} (t : Token) (R : List DeliveryRow → List DeliveryRow → Type ℓ) : Type ℓ where
  pub nothing : (rows : List DeliveryRow) → R rows rows
  pub deleted : (rows : List DeliveryRow) → R rows (delete_where (fence t) rows).0
  pub released :
      (visible : ℤ) (reason : Bytes) (rows : List DeliveryRow)
      → R rows (update_where (fence t) (released_row visible reason) rows).0
  pub extended :
      (visible : ℤ) (rows : List DeliveryRow)
      → R rows (update_where (extend_fence t) (extended_row visible) rows).0

pub changed-eq :
    (out : List DeliveryRow × ℕ) {rows : List DeliveryRow}
    → changed out ≡ Result.ok rows
    → rows ≡ out.0
unfolding changed
changed-eq (all_rows, n) h = ground arith

module _ {ℓ} (cmd : SettleCmd) (now : Time) (it : SettleItem)
    (R : List DeliveryRow → List DeliveryRow → Type ℓ) (w : Written it.token R) where
  apply_action-Written :
      (plan : SettlePlan) (r : DeliveryRow) (cons : SettleConsumer) (reason : Bytes)
      (res : ItemResult) (rows : List DeliveryRow) (action : SettleAction)
      {out : ItemResult × List DeliveryRow × List Event}
      → apply_action cmd now plan it r cons reason res rows action ≡ Result.ok out
      → R rows out.1
  unfolding apply_action delete_fenced release_fenced extend_fenced
  apply_action-Written plan r cons reason res rows noop h = rw (sym (ok-inj h)) (w.nothing rows)
  apply_action-Written plan r cons reason res rows act_ack h =
      let (after, e, k) = >>=-eq-ok (delete_fenced it.token rows) _ h in
      rw (sym (ok-inj k), changed-eq _ e) (w.deleted rows)
  apply_action-Written plan r cons reason res rows act_release h =
      let (after, e, k) = >>=-eq-ok (release_fenced it.token plan.new_visible_at reason rows) _ h in
      rw (sym (ok-inj k), changed-eq _ e) (w.released plan.new_visible_at reason rows)
  apply_action-Written plan r cons reason res rows act_extend h =
      let (after, e, k) = >>=-eq-ok (extend_fenced it.token plan.new_visible_at rows) _ h in
      rw (sym (ok-inj k), changed-eq _ e) (w.extended plan.new_visible_at rows)
  apply_action-Written plan r cons reason res rows act_dead h =
      let (dead, _, k) = >>=-eq-ok (cmd.sink _ now) _ h in
      let (after, e, k') = >>=-eq-ok (delete_fenced it.token rows) _ k in
      rw (sym (ok-inj k'), changed-eq _ e) (w.deleted rows)

  answer-Written :
      (plan : SettlePlan) (row : Option DeliveryRow) (cons : SettleConsumer) (s : SettleState)
      (status : ItemStatus) {out : ItemResult × SettleState}
      → answer cmd now plan it row cons s status ≡ Result.ok out
      → R s.rows out.1.rows
  unfolding answer granted reject_dup reject_stale
  answer-Written plan row cons s ItemStatus.ok h =
      let (applied, e, k) =
        >>=-eq-ok (apply_action cmd now plan it (row_or_blank row) cons _ _ s.rows plan.action) _
          h in
      rw (sym (ok-inj k))
        (apply_action-Written plan (row_or_blank row) cons _ _ s.rows plan.action e)
  answer-Written plan row cons s stale h = rw (sym (ok-inj h)) (w.nothing s.rows)
  answer-Written plan row cons s stale_ack h = rw (sym (ok-inj h)) (w.nothing s.rows)
  answer-Written plan row cons s wrong_generation h = rw (sym (ok-inj h)) (w.nothing s.rows)
  answer-Written plan row cons s unknown h = rw (sym (ok-inj h)) (w.nothing s.rows)

  planned-Written :
      (row : Option DeliveryRow) (cons : SettleConsumer) (s : SettleState)
      {out : ItemResult × SettleState}
      → planned cmd now it row cons s (plan_settle (request cmd it cons row) now) ≡ Result.ok out
      → R s.rows out.1.rows
  unfolding planned
  planned-Written row cons s h = elim (Result-cases (plan_settle (request cmd it cons row) now)) [
    | inl (plan, e) ↦ answer-Written plan row cons s plan.status (rw e at h)
    | inr (e, refused) ↦
        rw
          (sym
            (ok-inj (rw (refused, plan_settle-error (request cmd it cons row) now refused) at h)))
          (w.nothing s.rows)
  ]

  -- A settle that ends well has issued none of the four statements, or one.
  pub apply_one-Written :
      (cons : SettleConsumer) (loaded : List DeliveryRow) (s : SettleState)
      {out : ItemResult × SettleState}
      → apply_one cmd now it cons loaded s ≡ Result.ok out
      → R s.rows out.1.rows
  unfolding apply_one
  apply_one-Written cons loaded s h = elim (Bool-cases cons.found) [
    | inl found ↦ planned-Written (row_of it.token.seq loaded) cons s (rw found at h)
    | inr missing ↦ rw (sym (ok-inj (rw missing at h))) (w.nothing s.rows)
  ]
