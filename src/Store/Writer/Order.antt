-- ===== src/Store/Writer/Order.antt =====
-- run and takeBatch (internal/store/writer.go): no command is lost, doubled or overtaken, every batch
-- is within its budgets, and every caller is answered.
use messq.Common.{
  ℕ, suc, ◌+◌, ◌<◌, ◌≡◌, refl, sym, ap, ◌∙◌, ◌⊎◌, inl, inr, List, [], ◌∷◌, ◌++◌, take, drop, length,
  Bool, true, false, not, ◌||◌, Option, none, some, pos, ltb_ℤ, ◌≤ℤ◌, arith, append_assoc,
  take-append-drop, if_both, if◌then◌else◌,
}
use messq.Store.Writer.Command.{is_solo}
use messq.Store.Writer.Commit.{Request}
use messq.Store.Writer.Assemble.{Config, fill, take_batch, Group, alone, batch, assembled, turn}

or-left : (a b : Bool) → (a || b) ≡ false → a ≡ false
or-left a b h = ground arith

or-right : (a b : Bool) → (a || b) ≡ false → b ≡ false
or-right a b h = ground arith

module _ {S R V : Type 0} where
  abbrev pub opt_list : Option (Request S R V) → List (Request S R V)
  opt_list none = []
  opt_list (some r) = r ∷ []

  abbrev pub members : Group S R V → List (Request S R V)
  members (alone r) = r ∷ []
  members (batch rs) = rs

  abbrev pub sum_bytes : List (Request S R V) → ℕ
  sum_bytes [] = 0
  sum_bytes (r ∷ rs) = r.cmd.bytes + sum_bytes rs

  abbrev pub NoneSolo : List (Request S R V) → Type 0
  NoneSolo [] = Unit
  NoneSolo (r ∷ rs) = (is_solo r.cmd ≡ false) × NoneSolo rs

  -- What is taken, held and left is what was there, in its order; and what is taken keeps the budgets.
  record Fills (cfg : Config) (count bytes : ℕ) (queue : List (Request S R V))
      (taken : List (Request S R V) × Option (Request S R V) × List (Request S R V)) : Type 0 where
    order : taken.0 ++ (opt_list taken.1 ++ taken.2) ≡ queue
    plain : NoneSolo taken.0
    room :
        (taken.0 ≡ [])
        ⊎ ((pos (count + length taken.0) ≤ℤ cfg.commit_max_batch)
            × (pos (bytes + sum_bytes taken.0) ≤ℤ cfg.commit_max_bytes))

  room-cons :
      (cfg : Config) (count bytes : ℕ) (r : Request S R V) (rs : List (Request S R V))
      → not (ltb_ℤ (pos count) cfg.commit_max_batch) ≡ false
      → ltb_ℤ cfg.commit_max_bytes (pos (bytes + r.cmd.bytes)) ≡ false
      → (rs ≡ [])
        ⊎ ((pos (suc count + length rs) ≤ℤ cfg.commit_max_batch)
            × (pos ((bytes + r.cmd.bytes) + sum_bytes rs) ≤ℤ cfg.commit_max_bytes))
      → (pos (count + suc (length rs)) ≤ℤ cfg.commit_max_batch)
        × (pos (bytes + (r.cmd.bytes + sum_bytes rs)) ≤ℤ cfg.commit_max_bytes)
  room-cons cfg count bytes r rs fits goes (inl e) = rw e (ground arith, ground arith)
  room-cons cfg count bytes r rs fits goes (inr (a, b)) = (omega arith, omega arith)

  fill-Fills :
      (cfg : Config) (count bytes : ℕ) (queue : List (Request S R V))
      → Fills cfg count bytes queue (fill cfg count bytes queue)
  unfolding fill is_solo
  fill-Fills cfg count bytes [] = record { order = refl; plain = tt; room = inl refl }
  fill-Fills cfg count bytes (r ∷ queue) =
      let more = fill-Fills cfg (suc count) (bytes + r.cmd.bytes) queue in
      if_both (Fills cfg count bytes (r ∷ queue)) _ _ _
        (λ full. record { order = refl; plain = tt; room = inl refl })
        (λ fits.
          if_both (Fills cfg count bytes (r ∷ queue))
            (is_solo r.cmd || ltb_ℤ cfg.commit_max_bytes (pos (bytes + r.cmd.bytes))) _ _
            (λ stop. record { order = refl; plain = tt; room = inl refl })
            (λ goes. record {
              order = ap (λ l. r ∷ l) more.order;
              plain = (or-left _ _ goes, more.plain);
              room = inr (room-cons cfg count bytes r _ fits (or-right _ _ goes) more.room);
            }))

  -- A batch opens with its first command, whatever its size.
  pub record IsBatch (cfg : Config) (rs : List (Request S R V)) : Type 0 where
    pub plain : NoneSolo rs
    pub opens : 0 < length rs
    pub room :
        (length rs ≡ 1)
        ⊎ ((pos (length rs) ≤ℤ cfg.commit_max_batch) × (pos (sum_bytes rs) ≤ℤ cfg.commit_max_bytes))

  abbrev pub IsGroup : Config → Group S R V → Type 0
  IsGroup cfg (alone r) = is_solo r.cmd ≡ true
  IsGroup cfg (batch rs) = IsBatch cfg rs

  -- What a turn runs, what it holds and what it leaves.
  pub record Turns (cfg : Config) (queue : List (Request S R V))
      (next : Group S R V × Option (Request S R V) × List (Request S R V)) : Type 0 where
    pub order : members next.0 ++ (opt_list next.1 ++ next.2) ≡ queue
    pub shape : IsGroup cfg next.0

  take_batch-Turns :
      (cfg : Config) (arrived : ℕ) (first : Request S R V) (queue : List (Request S R V))
      → is_solo first.cmd ≡ false
      → (let taken = take_batch cfg arrived first queue in
          Turns cfg (first ∷ queue) (batch taken.0, taken.1, taken.2))
  unfolding take_batch
  take_batch-Turns cfg arrived first queue plain =
      let more = fill-Fills cfg 1 first.cmd.bytes (take arrived queue) in
      let taken = fill cfg 1 first.cmd.bytes (take arrived queue) in
      record {
        order =
            ap (λ l. first ∷ l)
              (ap (λ l. taken.0 ++ l)
                  (sym (append_assoc (opt_list taken.1) taken.2 (drop arrived queue)))
                ∙ sym (append_assoc taken.0 (opt_list taken.1 ++ taken.2) (drop arrived queue))
                ∙ ap (λ l. l ++ drop arrived queue) more.order
                ∙ take-append-drop arrived queue);
        shape = record {
          plain = (plain, more.plain);
          opens = omega arith;
          room = elim more.room [
            | inl e ↦ inl (ap (λ l. suc (length l)) e)
            | inr (a, b) ↦ inr (omega arith, omega arith)
          ];
        };
      }

  abbrev pub Turned :
      Config
      → List (Request S R V)
      → Option (Group S R V × Option (Request S R V) × List (Request S R V))
      → Type 0
  Turned cfg queue none = queue ≡ []
  Turned cfg queue (some next) = Turns cfg queue next

  opened-Turned :
      (cfg : Config) (arrived : ℕ) (r : Request S R V) (queue : List (Request S R V))
      → Turned cfg (r ∷ queue) (
          if is_solo r.cmd
          then some (alone r, none, queue)
          else assembled (take_batch cfg arrived r queue))
  opened-Turned cfg arrived r queue =
      if_both (Turned cfg (r ∷ queue)) (is_solo r.cmd) _ _
        (λ solo. record { order = refl; shape = solo })
        (λ plain. take_batch-Turns cfg arrived r queue plain)

  -- A turn of the loop takes commands in the order of the channel, and the one that it holds goes
  -- before those; a solo command runs alone, a batch has none, and one of several commands is within
  -- both budgets. There is no turn only when there is no command.
  pub turn-Turned :
      (cfg : Config) (arrived : ℕ) (held : Option (Request S R V)) (queue : List (Request S R V))
      → Turned cfg (opt_list held ++ queue) (turn cfg arrived held queue)
  unfolding turn
  turn-Turned cfg arrived (some r) queue = opened-Turned cfg arrived r queue
  turn-Turned cfg arrived none [] = refl
  turn-Turned cfg arrived none (r ∷ queue) = opened-Turned cfg arrived r queue
