-- ===== src/Store/Settle/Writes.antt =====
-- applyOne (internal/store/settle.go): what can abort a batch.
use messq.Common.{
  ℕ, ◌≡◌, refl, sym, subst, List, [], ◌∷◌, Bool, true, false, ◌&&◌, not, Option, none, some, Result,
  err, ◌>>=◌, arith, inl, inr, Result-cases, if_both, Bytes,
}
use messq.Errs.{bad_request}
use messq.Queue.Types.{Error, sentinel, Time}
use messq.Queue.Token.{Token}
use messq.Queue.Settle.{
  SettleRequest, SettlePlan, plan_settle, SettleAction, noop, act_ack, act_release, act_extend,
  act_dead, ItemStatus, is_ready,
}
use messq.Queue.Settle.Fence.{Fenced, mutation-Fenced, ok_iff_mutation}
use messq.Queue.Dead.{DeadCtx}
use messq.Store.Rows.{DeliveryRow, Sorted}
use messq.Store.Settle.{
  SettleConsumer, SettleItem, ItemResult, StoreError, SettleState, SettleCmd, row_of, fence,
}
use messq.Store.Settle.Action.{apply_action, delete_fenced, release_fenced, extend_fenced}
use messq.Store.Settle.Apply.{apply_one, planned, answer, granted, request}
use messq.Store.Settle.Fenced.{fence-Picks, delete_where-changed, update_where-changed}

-- The planner refuses a request in one way only.
pub plan_settle-error :
    (req : SettleRequest) (now : Time) {e : Error}
    → plan_settle req now ≡ err e
    → e ≡ sentinel bad_request
unfolding plan_settle
plan_settle-error req now h = ground arith

-- An extension is granted to an inflight row only.
pub plan_settle-extend :
    (req : SettleRequest) (now : Time) {plan : SettlePlan}
    → plan_settle req now ≡ Result.ok plan
    → plan.action ≡ act_extend
    → is_ready req.row_state ≡ false
unfolding plan_settle
plan_settle-extend req now h e = ground arith

-- The call ended well, or with an error that the dead sink answered.
abbrev pub Returns : SettleCmd → Time → {A : Type 0} → Result StoreError A → Type 0
Returns cmd now (Result.ok a) = Unit
Returns cmd now (err e) = (d : DeadCtx) × (cmd.sink d now ≡ err e)

-- The table that the planner's answer is written to: in the order of its numbers, with every row of
-- the consumer's own generation.
pub record IsCurrent (cons : SettleConsumer) (rows : List DeliveryRow) : Type 0 where
  pub sorted : Sorted 0 rows
  pub generations :
      (n : ℕ) (r : DeliveryRow) → row_of n rows ≡ some r → r.generation ≡ cons.generation

pub and-left : (a b : Bool) → (a && b) ≡ true → a ≡ true
and-left a b h = ground arith

Bool-false≢true : ¬ (false ≡ true)
Bool-false≢true h = cc

row_of-seq :
    (n : ℕ) (rows : List DeliveryRow) {r : DeliveryRow} → row_of n rows ≡ some r → r.seq ≡ n
unfolding row_of
row_of-seq n [] h = cc
row_of-seq n (x ∷ rs) {r} h = ground (arith, row_of-seq n rs {r = r})

-- The row that a fenced request names is in the table, and the statements' fence holds of it.
pub record IsNamed (t : Token) (rows : List DeliveryRow) (r : DeliveryRow) : Type 0 where
  pub found : row_of t.seq rows ≡ some r
  pub fenced : fence t r ≡ true

named :
    (cmd : SettleCmd) (it : SettleItem) (cons : SettleConsumer) (rows : List DeliveryRow)
    (row : Option DeliveryRow)
    → IsCurrent cons rows
    → row_of it.token.seq rows ≡ row
    → Fenced (request cmd it cons row)
    → (r : DeliveryRow) × (row ≡ some r) × IsNamed it.token rows r
unfolding request fence
named cmd it cons rows none cur found f = absurd (Bool-false≢true f.row_is_live)
named cmd it cons rows (some r) cur found f =
    let g = cur.generations it.token.seq r found in
    let n = row_of-seq it.token.seq rows found in
    let a = f.same_attempt in
    let e = f.same_generation in (r, refl, record { found = found; fenced = ground arith })

module _ (cmd : SettleCmd) (now : Time) where
  Returns->>= :
      {A B : Type 0} (m : Result StoreError A) (k : A → Result StoreError B)
      → Returns cmd now m
      → ((a : A) → Returns cmd now (k a))
      → Returns cmd now (m >>= k)
  Returns->>= (Result.ok a) k h hk = hk a
  Returns->>= (err e) k h hk = h

  eq-Returns : {A : Type 0} {m : Result StoreError A} {a : A} → m ≡ Result.ok a → Returns cmd now m
  eq-Returns e = rw e tt

  sink-Returns : (d : DeadCtx) → Returns cmd now (cmd.sink d now)
  sink-Returns d = elim (Result-cases (cmd.sink d now)) [
    | inl (ev, accepted) ↦ eq-Returns accepted
    | inr (e, failed) ↦ subst (Returns cmd now) (sym failed) (d, failed)
  ]

module _ (cmd : SettleCmd) (now : Time) (it : SettleItem) (cons : SettleConsumer) where
  apply_action-Returns :
      (plan : SettlePlan) (r : DeliveryRow) (reason : Bytes) (res : ItemResult)
      (rows : List DeliveryRow)
      → IsCurrent cons rows
      → IsNamed it.token rows r
      → (action : SettleAction) → (action ≡ act_extend → is_ready r.state ≡ false)
      → Returns cmd now (apply_action cmd now plan it r cons reason res rows action)
  unfolding apply_action delete_fenced release_fenced extend_fenced
  apply_action-Returns plan r reason res rows cur named_row noop ext = tt
  apply_action-Returns plan r reason res rows cur named_row act_ack ext =
      Returns->>= cmd now _ _
        (eq-Returns cmd now (
          delete_where-changed (fence it.token) it.token.seq (fence-Picks it.token) 0 rows r
            cur.sorted named_row.found named_row.fenced))
        (λ _. tt)
  apply_action-Returns plan r reason res rows cur named_row act_release ext =
      Returns->>= cmd now _ _
        (eq-Returns cmd now (
          update_where-changed (fence it.token) it.token.seq (fence-Picks it.token) _ 0 rows r
            cur.sorted named_row.found named_row.fenced))
        (λ _. tt)
  apply_action-Returns plan r reason res rows cur named_row act_extend ext =
      let inflight_row = ext refl in
      let both = named_row.fenced in
      Returns->>= cmd now _ _
        (eq-Returns cmd now (
          update_where-changed (λ x. fence it.token x && not (is_ready x.state)) it.token.seq
            (λ x h. fence-Picks it.token x (and-left _ _ h)) _ 0 rows r cur.sorted named_row.found
            (ground arith)))
        (λ _. tt)
  apply_action-Returns plan r reason res rows cur named_row act_dead ext =
      Returns->>= cmd now _ _ (sink-Returns cmd now _) (λ dead.
        Returns->>= cmd now _ _
          (eq-Returns cmd now (
            delete_where-changed (fence it.token) it.token.seq (fence-Picks it.token) 0 rows r
              cur.sorted named_row.found named_row.fenced))
          (λ _. tt))

  answer-Returns :
      (plan : SettlePlan) (row : Option DeliveryRow) (s : SettleState)
      → (plan.status ≡ ItemStatus.ok → Returns cmd now (granted cmd now plan it row cons s))
      → (status : ItemStatus) → plan.status ≡ status
      → Returns cmd now (answer cmd now plan it row cons s status)
  unfolding answer
  answer-Returns plan row s h ItemStatus.ok e = h e
  answer-Returns plan row s h ItemStatus.stale e = tt
  answer-Returns plan row s h ItemStatus.stale_ack e = tt
  answer-Returns plan row s h ItemStatus.wrong_generation e = tt
  answer-Returns plan row s h ItemStatus.unknown e = tt

  granted-Returns :
      (plan : SettlePlan) (row : Option DeliveryRow) (s : SettleState)
      → IsCurrent cons s.rows
      → row_of it.token.seq s.rows ≡ row
      → plan_settle (request cmd it cons row) now ≡ Result.ok plan
      → plan.status ≡ ItemStatus.ok
      → Returns cmd now (granted cmd now plan it row cons s)
  unfolding granted request
  granted-Returns plan row s cur found planned_ok status =
      let req = request cmd it cons row in
      let acts = (ok_iff_mutation req now planned_ok).0 status in
      let (fenced, _) = mutation-Fenced req now planned_ok acts in
      let (r, same, named_row) = named cmd it cons s.rows row cur found fenced in
      let ext : plan.action ≡ act_extend → is_ready r.state ≡ false =
        λ e. rw same at (plan_settle-extend req now planned_ok e) in
      rw same (
        Returns->>= cmd now _ _
          (apply_action-Returns plan r _ _ s.rows cur named_row plan.action ext) (λ _. tt))

-- A settle aborts its batch only with an error of its dead sink: when the rows are the ones it loaded,
-- in the order of their numbers and of the consumer's generation, it ends with a result, or with an
-- error that the sink answers for some dead letter.
pub apply_one-Returns :
    (cmd : SettleCmd) (now : Time) (it : SettleItem) (cons : SettleConsumer) (s : SettleState)
    → IsCurrent cons s.rows
    → Returns cmd now (apply_one cmd now it cons s.rows s)
unfolding apply_one planned
apply_one-Returns cmd now it cons s cur =
    let row = row_of it.token.seq s.rows in
    let req = request cmd it cons row in
    if_both (Returns cmd now {A = ItemResult × SettleState}) (not cons.found) _
      (planned cmd now it row cons s (plan_settle req now)) (λ _. tt)
      (λ _. elim (Result-cases (plan_settle req now)) [
        | inl (plan, e) ↦ rw e (
            answer-Returns cmd now it cons plan row s
              (granted-Returns cmd now it cons plan row s cur refl e) plan.status refl)
        | inr (e, refused) ↦ rw (refused, plan_settle-error req now refused) tt
      ])
