-- ===== src/Send/Rows.antt =====
-- The table of sends when an access is counted.
use passwall_server.Base.{
  Error, Result, ok, err, ◌⊎◌, ℕ, suc, ◌≤◌, some, String, true, Gorm, IsGorm, Answers, ◌≡◌, refl,
  sym, ap, ◌∙◌, ◌==◌, if◌then◌else◌, Memᴰ, map, mem-map, map-mem, Bool-cases, inl, inr, arith,
  ==_self, commit,
}
use passwall_server.Send.Record.{
  Send, Table, key, rekey, by_access_id, counted_once, increment_access_count,
}

-- The row with the identifier has one more access.
abbrev pub count_row : ℕ → Send → Send
count_row id x = if x.id == id then record x { access_count = suc x.access_count } else x

-- The statement that adds an access to the row with the identifier fails.
abbrev pub UpdateFails : Gorm Send → ℕ → Table → Type 0
UpdateFails db id rows =
    (e : Error) × (db.update (λ x. x.id == id) (λ x. record x { access_count = suc x.access_count })
        rows
      ≡ err e)

-- One more access of the row with the identifier and nothing else, or the statement failed and left
-- the table alone.
abbrev pub Counted : Gorm Send → ℕ → Table → Table → Type 0
Counted db id rows rows' =
    (rows' ≡ map (count_row id) rows) ⊎ (UpdateFails db id rows × (rows' ≡ rows))

pub increment-Counted :
    (db : Gorm Send) (id : ℕ) (rows : Table)
    → IsGorm key rekey db
    → Counted db id rows (increment_access_count db id rows).1
unfolding commit
increment-Counted db id rows reliable = counted (db.update (λ s. s.id == id) counted_once rows) refl
  where
    counted :
        (r : Result Table)
        → db.update (λ s. s.id == id) counted_once rows ≡ r
        → Counted db id rows (commit r rows).1
    counted (ok rows') h = inl (reliable.update_ok _ _ rows rows' h)
    counted (err e) h = inr ((e, h), refl)

pub Counted-answers :
    (db : Gorm Send) (id : ℕ) (rows rows' : Table)
    → Answers db
    → Counted db id rows rows'
    → rows' ≡ map (count_row id) rows
Counted-answers db id rows rows' answers (inl e) = e
Counted-answers db id rows rows' answers (inr ((x, h), e)) =
    let (t, k) = answers.update_answers _ _ rows in let no : ok t ≡ err x = sym k ∙ h in cc

pub increment_lem :
    (db : Gorm Send) (id : ℕ) (rows : Table)
    → IsGorm key rekey db
    → Answers db
    → (increment_access_count db id rows).1 ≡ map (count_row id) rows
unfolding commit
increment_lem db id rows reliable answers =
    let (rows', h) = answers.update_answers (λ s. s.id == id) counted_once rows in
    ap (λ r. (commit r rows).1) h ∙ reliable.update_ok (λ s. s.id == id) counted_once rows rows' h

-- No two sends that are not deleted have this access identifier.
abbrev pub OneSend : String → Table → Type 0
OneSend access_id rows =
    (x y : Send)
    → Memᴰ x rows
    → Memᴰ y rows
    → by_access_id access_id x ≡ true
    → by_access_id access_id y ≡ true
    → x ≡ y

-- A send of the access identifier with the limit has been accessed this many times.
abbrev pub Accessed : String → ℕ → ℕ → Table → Type 0
Accessed access_id limit n rows =
    (x : Send) × Memᴰ x rows
    × (by_access_id access_id x ≡ true)
    × (x.max_access_count ≡ some limit)
    × (n ≤ x.access_count)

count_row_same :
    (a : String) (id : ℕ) (x : Send) → by_access_id a (count_row id x) ≡ by_access_id a x
count_row_same a id x = elim (Bool-cases (x.id == id)) [ inl t ↦ rw t refl | inr f ↦ rw f refl ]

pub OneSend-count :
    (a : String) (id : ℕ) (rows : Table) → OneSend a rows → OneSend a (map (count_row id) rows)
OneSend-count a id rows one x y m n p q =
    let (x0, mx, ex) = map-mem (count_row id) x rows m in
    let (y0, my, ey) = map-mem (count_row id) y rows n in
    let same =
      one x0 y0 mx my (sym (count_row_same a id x0) ∙ ap (by_access_id a) (sym ex) ∙ p)
        (sym (count_row_same a id y0) ∙ ap (by_access_id a) (sym ey) ∙ q) in
    ex ∙ ap (count_row id) same ∙ sym ey

count_row-max : (id : ℕ) (x : Send) → (count_row id x).max_access_count ≡ x.max_access_count
count_row-max id x = elim (Bool-cases (x.id == id)) [ inl t ↦ rw t refl | inr f ↦ rw f refl ]

count_row_grows : (id : ℕ) (x : Send) → x.access_count ≤ (count_row id x).access_count
count_row_grows id x = elim (Bool-cases (x.id == id)) [
  | inl t ↦ rw t (omega arith)
  | inr f ↦ rw f (omega arith)
]

pub Accessed-count :
    (a : String) (limit n id : ℕ) (rows : Table)
    → Accessed a limit n rows
    → Accessed a limit n (map (count_row id) rows)
Accessed-count a limit n id rows (x, m, p, l, c) = (
  count_row id x,
  mem-map (count_row id) x rows m,
  count_row_same a id x ∙ p,
  count_row-max id x ∙ l,
  omega (arith, c, count_row_grows id x),
)

-- The send's own count.
pub Accessed-count_self :
    (a : String) (limit n : ℕ) (rows : Table) (x : Send)
    → Memᴰ x rows
    → by_access_id a x ≡ true
    → x.max_access_count ≡ some limit
    → n ≤ x.access_count
    → Accessed a limit (suc n) (map (count_row x.id) rows)
Accessed-count_self a limit n rows x m p l c = (
  count_row x.id x,
  mem-map (count_row x.id) x rows m,
  count_row_same a x.id x ∙ p,
  count_row-max x.id x ∙ l,
  rw (==_self x.id) (omega (arith, c)),
)
