-- ===== src/Base/Rows.antt =====
-- The rows of a table and the statements that gorm runs on them. gorm and the database are not code
-- of the repository: `Gorm` is what the program calls, `IsGorm` what it relies on.
use Prim.Native.Nat.{ℕ, ◌+◌}
use mathlib.Core.Path.{◌≡◌}
use mathlib.Core.Logic.{◌≢◌, ◌⊎◌}
use mathlib.Core.Bool.{Bool, true, false, not}
use mathlib.Core.List.{List, [], ◌∷◌, ◌++◌, map, Memᴰ}
use package.passwall_server.Base.Tests.{◌==◌, if◌then◌else◌}
use package.passwall_server.Base.Outcome.{
  Error, record_not_found, is_not_found, translate, Result, ok, err,
}

-- Every row has the property.
abbrev pub All {ℓ κ} : {A : Type ℓ} → (A → Type κ) → List A → Type κ
All P [] = Unit
All P (x ∷ xs) = P x × All P xs

module _ {Row : Type 0} where
  unfoldable pub keep : (Row → Bool) → List Row → List Row
  keep p [] = []
  keep p (r ∷ rows) = let rest = keep p rows in if p r then r ∷ rest else rest

  unfoldable pub count_rows : (Row → Bool) → List Row → ℕ
  count_rows p [] = 0
  count_rows p (r ∷ rows) = (if p r then 1 else 0) + count_rows p rows

  -- An update of the row with the key, or a new row if there is none.
  unfoldable pub upsert : (Row → ℕ) → Row → List Row → List Row
  upsert key r [] = r ∷ []
  upsert key r (x ∷ rows) =
      let rest = upsert key r rows in if key x == key r then r ∷ rows else x ∷ rest

-- The statements, on a table's rows. A statement that fails gives no new rows: each runs in a
-- transaction of its own. `create` and `save` give the rows, and `create` the row with its key;
-- `delete_where` gives the number of rows that it deletes, and the rows.
pub record Gorm (Row : Type 0) : Type 0 where
  pub first : (Row → Bool) → List Row → Result Row
  pub find : (Row → Bool) → List Row → Result (List Row)
  pub count : (Row → Bool) → List Row → Result ℕ
  pub create : Row → List Row → Result (Row × List Row)
  pub save : Row → List Row → Result (List Row)
  pub delete : ℕ → List Row → Result (List Row)
  pub delete_where : (Row → Bool) → List Row → Result (ℕ × List Row)
  pub update : (Row → Bool) → (Row → Row) → List Row → Result (List Row)

-- gorm's documented behaviour. `First` gives some row that satisfies the condition, or
-- ErrRecordNotFound itself if there is none, and no other error that counts as it; `Find` gives all
-- of them and `Count` their number; `Create` adds the row under a key that no other row has; `Save`
-- updates the row with the key or adds it; `Delete` removes by key or all that satisfy a condition,
-- and gives their number; `Updates` changes the rows that satisfy the condition. Any of them may
-- fail instead.
pub record IsGorm {Row : Type 0} (key : Row → ℕ) (rekey : ℕ → Row → Row) (db : Gorm Row)
    : Type 0 where
  pub first_found :
      (p : Row → Bool) (rows : List Row) (r : Row)
      → db.first p rows ≡ ok r
      → Memᴰ r rows × (p r ≡ true)
  pub first_missing :
      (p : Row → Bool) (rows : List Row)
      → db.first p rows ≡ err record_not_found
      → (r : Row) → Memᴰ r rows
      → p r ≡ false
  pub first_error :
      (p : Row → Bool) (rows : List Row) (e : Error)
      → db.first p rows ≡ err e
      → is_not_found (translate e) ≡ true
      → e ≡ record_not_found
  pub find_sound :
      (p : Row → Bool) (rows found : List Row)
      → db.find p rows ≡ ok found
      → (r : Row) → Memᴰ r found
      → Memᴰ r rows × (p r ≡ true)
  pub find_complete :
      (p : Row → Bool) (rows found : List Row)
      → db.find p rows ≡ ok found
      → (r : Row) → Memᴰ r rows
      → p r ≡ true
      → Memᴰ r found
  pub count_ok :
      (p : Row → Bool) (rows : List Row) (n : ℕ) → db.count p rows ≡ ok n → n ≡ count_rows p rows
  pub create_ok :
      (r : Row) (rows : List Row) (r' : Row) (rows' : List Row)
      → db.create r rows ≡ ok (r', rows')
      → (r' ≡ rekey (key r') r)
        × (rows' ≡ rows ++ r' ∷ [])
        × ((x : Row) → Memᴰ x rows → key x ≢ key r')
  pub save_ok :
      (r : Row) (rows rows' : List Row) → db.save r rows ≡ ok rows' → rows' ≡ upsert key r rows
  pub delete_ok :
      (k : ℕ) (rows rows' : List Row)
      → db.delete k rows ≡ ok rows'
      → rows' ≡ keep (λ x. not (key x == k)) rows
  pub delete_where_ok :
      (p : Row → Bool) (n : ℕ) (rows rows' : List Row)
      → db.delete_where p rows ≡ ok (n, rows')
      → (n ≡ count_rows p rows) × (rows' ≡ keep (λ x. not (p x)) rows)
  pub update_ok :
      (p : Row → Bool) (f : Row → Row) (rows rows' : List Row)
      → db.update p f rows ≡ ok rows'
      → rows' ≡ map (λ x. if p x then f x else x) rows

-- A database that answers: no statement fails but for the row that `First` does not find.
pub record Answers {Row : Type 0} (db : Gorm Row) : Type 0 where
  pub first_answers :
      (p : Row → Bool) (rows : List Row)
      → ((r : Row) × (db.first p rows ≡ ok r)) ⊎ (db.first p rows ≡ err record_not_found)
  pub create_answers :
      (r : Row) (rows : List Row)
      → (r' : Row) × (rows' : List Row) × (db.create r rows ≡ ok (r', rows'))
  pub save_answers : (r : Row) (rows : List Row) → (rows' : List Row) × (db.save r rows ≡ ok rows')
  pub delete_where_answers :
      (p : Row → Bool) (rows : List Row)
      → (n : ℕ) × (rows' : List Row) × (db.delete_where p rows ≡ ok (n, rows'))
  pub update_answers :
      (p : Row → Bool) (f : Row → Row) (rows : List Row)
      → (rows' : List Row) × (db.update p f rows ≡ ok rows')
