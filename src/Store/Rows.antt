-- ===== src/Store/Rows.antt =====
-- The tables that internal/store reads and writes (internal/store/migrations/0001_init.sql): the
-- rows of one stream, and of one consumer of it, each in the order of their sequence numbers.
use messq.Common.{
  ℕ, ◌<◌, ◌≡◌, ◌⊎◌, List, [], ◌∷◌, Bool, true, false, Bytes, ℤ, ltb, ◌==◌, if◌then◌else◌,
}
use messq.Queue.Settle.{DeliveryState}

pub record Message : Type 0 where
  pub seq : ℕ
  pub subject : Bytes
  pub size : ℕ

-- A row of `deliveries`. A NULL `delivered_at` is 0, as its readers coalesce it.
pub record DeliveryRow : Type 0 where
  pub seq : ℕ
  pub subject : Bytes
  pub state : DeliveryState
  pub attempts : ℕ
  pub visible_at : ℤ
  pub generation : ℕ
  pub delivered_at : ℤ
  pub last_reason : Bytes

-- INSERT … ON CONFLICT DO NOTHING: the table, and whether the row went in.
unfoldable pub insert_row : DeliveryRow → List DeliveryRow → List DeliveryRow × Bool
insert_row r [] = (r ∷ [], true)
insert_row r (x ∷ xs) =
    let (rest, inserted) = insert_row r xs in
    if ltb r.seq x.seq
    then (r ∷ x ∷ xs, true)
    else if r.seq == x.seq
    then (x ∷ xs, false)
    else (x ∷ rest, inserted)

abbrev pub HasRow : ℕ → List DeliveryRow → Type 0
HasRow n [] = ⊥
HasRow n (r ∷ rs) = (r.seq ≡ n) ⊎ HasRow n rs

-- In the order of their numbers, which are all above `lo`, so that no two rows have the same.
abbrev pub Sorted : ℕ → List DeliveryRow → Type 0
Sorted lo [] = Unit
Sorted lo (r ∷ rs) = (lo < r.seq) × Sorted r.seq rs
