-- ===== src/Store/Settle/Fenced.antt =====
-- The fence in the statements of applyAction (internal/store/settle_impl.go): each one changes
-- exactly the row that the planner saw.
use messq.Common.{
  ℕ, suc, ◌≤◌, ◌≡◌, ◌≢◌, refl, List, [], ◌∷◌, Bool, true, none, some, arith, Result, if◌then◌else◌,
}
use messq.Queue.Token.{Token}
use messq.Store.Rows.{DeliveryRow, Sorted}
use messq.Store.Settle.{row_of, fence, delete_where, update_where, changed}

-- A test that holds of rows of one number only.
abbrev pub Picks : ℕ → (DeliveryRow → Bool) → Type 0
Picks n p = (r : DeliveryRow) → p r ≡ true → r.seq ≡ n

module _ (p : DeliveryRow → Bool) (n : ℕ) (picks : Picks n p) where
  abbrev count_where : List DeliveryRow → ℕ
  count_where [] = 0
  count_where (r ∷ rs) = if p r then suc (count_where rs) else count_where rs

  count-delete_where : (rows : List DeliveryRow) → (delete_where p rows).1 ≡ count_where rows
  unfolding delete_where
  count-delete_where [] = refl
  count-delete_where (r ∷ rs) = ground (arith, count-delete_where rs)

  count-update_where :
      (f : DeliveryRow → DeliveryRow) (rows : List DeliveryRow)
      → (update_where p f rows).1 ≡ count_where rows
  unfolding update_where
  count-update_where f [] = refl
  count-update_where f (r ∷ rs) = ground (arith, count-update_where f rs)

  count-above : (lo : ℕ) (rows : List DeliveryRow) → n ≤ lo → Sorted lo rows → count_where rows ≡ 0
  count-above lo [] le up = refl
  count-above lo (r ∷ rs) le (lt, up) =
      let rest = count-above r.seq rs (omega arith) up in let hit = picks r in ground arith

  count-one :
      (lo : ℕ) (rows : List DeliveryRow) (r : DeliveryRow)
      → Sorted lo rows
      → row_of n rows ≡ some r
      → p r ≡ true
      → count_where rows ≡ 1
  unfolding row_of
  count-one lo [] r up found hit = cc
  count-one lo (x ∷ rs) r (lt, up) found hit =
      let above : n ≤ x.seq → count_where rs ≡ 0 = λ e. count-above x.seq rs e up in
      let rest : row_of n rs ≡ some r → count_where rs ≡ 1 = λ f. count-one x.seq rs r up f hit in
      let only = picks x in ground arith

  -- The rows of other numbers are not touched.
  pub delete_where-others :
      (rows : List DeliveryRow) (m : ℕ) → m ≢ n → row_of m (delete_where p rows).0 ≡ row_of m rows
  unfolding delete_where row_of
  delete_where-others [] m ne = refl
  delete_where-others (r ∷ rs) m ne =
      let rest = delete_where-others rs m ne in let only = picks r in ground arith

  pub update_where-others :
      (f : DeliveryRow → DeliveryRow)
      → ((r : DeliveryRow) → (f r).seq ≡ r.seq)
      → (rows : List DeliveryRow) (m : ℕ) → m ≢ n
      → row_of m (update_where p f rows).0 ≡ row_of m rows
  unfolding update_where row_of
  update_where-others f same [] m ne = refl
  update_where-others f same (r ∷ rs) m ne =
      let rest = update_where-others f same rs m ne in
      let number = same r in let only = picks r in ground arith

  absent-above :
      (lo : ℕ) (rows : List DeliveryRow)
      → n ≤ lo
      → Sorted lo rows
      → row_of n (delete_where p rows).0 ≡ none
  unfolding delete_where row_of
  absent-above lo [] le up = refl
  absent-above lo (r ∷ rs) le (lt, up) =
      let rest = absent-above r.seq rs (omega arith) up in let only = picks r in ground arith

  -- A deleted row is gone.
  pub delete_where-gone :
      (lo : ℕ) (rows : List DeliveryRow) (r : DeliveryRow)
      → Sorted lo rows
      → row_of n rows ≡ some r
      → p r ≡ true
      → row_of n (delete_where p rows).0 ≡ none
  unfolding delete_where row_of
  delete_where-gone lo [] r up found hit = cc
  delete_where-gone lo (x ∷ rs) r (lt, up) found hit =
      let above : n ≤ x.seq → row_of n (delete_where p rs).0 ≡ none =
        λ e. absent-above x.seq rs e up in
      let rest : row_of n rs ≡ some r → row_of n (delete_where p rs).0 ≡ none =
        λ f. delete_where-gone x.seq rs r up f hit in
      ground arith

  pub delete_where-changed :
      (lo : ℕ) (rows : List DeliveryRow) (r : DeliveryRow)
      → Sorted lo rows
      → row_of n rows ≡ some r
      → p r ≡ true
      → changed (delete_where p rows) ≡ Result.ok (delete_where p rows).0
  unfolding changed
  delete_where-changed lo rows r up found hit =
      let one = count-one lo rows r up found hit in
      let same = count-delete_where rows in ground arith

  pub update_where-changed :
      (f : DeliveryRow → DeliveryRow) (lo : ℕ) (rows : List DeliveryRow) (r : DeliveryRow)
      → Sorted lo rows
      → row_of n rows ≡ some r
      → p r ≡ true
      → changed (update_where p f rows) ≡ Result.ok (update_where p f rows).0
  unfolding changed
  update_where-changed f lo rows r up found hit =
      let one = count-one lo rows r up found hit in
      let same = count-update_where f rows in ground arith

pub fence-Picks : (t : Token) → Picks t.seq (fence t)
unfolding fence
fence-Picks t r h = ground arith
