-- ===== src/Base/Memory.antt =====
-- A table kept in memory: it shows that what is relied on of gorm can hold, and runs the tests.
use Prim.Native.Nat.{ℕ, suc, ◌<◌, max}
use mathlib.Core.Path.{◌≡◌, refl, sym, ap, subst, ◌∙◌}
use mathlib.Core.Logic.{◌≢◌, ◌⊎◌, inl, inr}
use mathlib.Core.Bool.{Bool, true, false, not}
use mathlib.Core.List.{List, [], ◌∷◌, ◌++◌, map, Memᴰ}
use native.Mathlib.Omega.{arith}
use package.passwall_server.Base.Tests.{◌==◌, if◌then◌else◌, Bool-cases}
use package.passwall_server.Base.Outcome.{Error, record_not_found, Result, ok, err, ok-injective}
use package.passwall_server.Base.Rows.{keep, count_rows, upsert, Gorm, IsGorm, Answers}
use package.passwall_server.Base.RowLaws.{mem-cons}

module _ {Row : Type 0} where
  unfoldable pub first_row : (Row → Bool) → List Row → Result Row
  first_row p [] = err record_not_found
  first_row p (r ∷ rows) = if p r then ok r else first_row p rows

  -- A number above every key.
  unfoldable pub next_key : (Row → ℕ) → List Row → ℕ
  next_key key [] = 1
  next_key key (r ∷ rows) = max (suc (key r)) (next_key key rows)

  abbrev pub memory : (Row → ℕ) → (ℕ → Row → Row) → Gorm Row
  memory key rekey = record {
    first = first_row;
    find = λ p rows. ok (keep p rows);
    count = λ p rows. ok (count_rows p rows);
    create = λ r rows. let r' = rekey (next_key key rows) r in ok (r', rows ++ r' ∷ []);
    save = λ r rows. ok (upsert key r rows);
    delete = λ k rows. ok (keep (λ x. not (key x == k)) rows);
    delete_where = λ p rows. ok (count_rows p rows, keep (λ x. not (p x)) rows);
    update = λ p f rows. ok (map (λ x. if p x then f x else x) rows);
  }

  first_row-found :
      (p : Row → Bool) (rows : List Row) (r : Row)
      → first_row p rows ≡ ok r
      → Memᴰ r rows × (p r ≡ true)
  unfolding first_row
  first_row-found p [] r h = cc
  first_row-found p (x ∷ rows) r h = elim (Bool-cases (p x)) [
    | inl e ↦ let q : x ≡ r = ground arith in (Memᴰ.head (sym q), subst (λ y. p y ≡ true) q e)
    | inr e ↦ let (m, t) = first_row-found p rows r (ground arith) in (Memᴰ.tail m, t)
  ]

  first_row-missing :
      (p : Row → Bool) (rows : List Row)
      → first_row p rows ≡ err record_not_found
      → (r : Row) → Memᴰ r rows
      → p r ≡ false
  unfolding first_row
  first_row-missing p [] h r m = elim m [ ]
  first_row-missing p (x ∷ rows) h r (Memᴰ.head e) = elim (Bool-cases (p x)) [
    | inl t ↦ absurd (ground arith)
    | inr f ↦ subst (λ y. p y ≡ false) (sym e) f
  ]
  first_row-missing p (x ∷ rows) h r (Memᴰ.tail m) = elim (Bool-cases (p x)) [
    | inl t ↦ absurd (ground arith)
    | inr f ↦ first_row-missing p rows (ground arith) r m
  ]

  first_row-error :
      (p : Row → Bool) (rows : List Row) (e : Error)
      → first_row p rows ≡ err e
      → e ≡ record_not_found
  unfolding first_row
  first_row-error p [] e h = cc
  first_row-error p (x ∷ rows) e h = elim (Bool-cases (p x)) [
    | inl t ↦ absurd (ground arith)
    | inr f ↦ first_row-error p rows e (ground arith)
  ]

  pub keep_sound :
      (p : Row → Bool) (rows : List Row) (r : Row)
      → Memᴰ r (keep p rows)
      → Memᴰ r rows × (p r ≡ true)
  unfolding keep
  keep_sound p [] r m = elim m [ ]
  keep_sound p (x ∷ rows) r m = elim (Bool-cases (p x)) [
    | inl e ↦ elim (mem-cons (rw e at m)) [
      | inl h ↦ (Memᴰ.head h, rw h e)
      | inr h ↦ let (k, t) = keep_sound p rows r h in (Memᴰ.tail k, t)
    ]
    | inr e ↦ let (k, t) = keep_sound p rows r (rw e at m) in (Memᴰ.tail k, t)
  ]

  pub keep_complete :
      (p : Row → Bool) (rows : List Row) (r : Row) → Memᴰ r rows → p r ≡ true → Memᴰ r (keep p rows)
  unfolding keep
  keep_complete p [] r m h = elim m [ ]
  keep_complete p (x ∷ rows) r (Memᴰ.head e) h = rw (ap p (sym e) ∙ h) (Memᴰ.head e)
  keep_complete p (x ∷ rows) r (Memᴰ.tail m) h = elim (Bool-cases (p x)) [
    | inl t ↦ rw t (Memᴰ.tail (keep_complete p rows r m h))
    | inr t ↦ rw t (keep_complete p rows r m h)
  ]

  next_key-above :
      (key : Row → ℕ) (rows : List Row) (x : Row) → Memᴰ x rows → key x < next_key key rows
  unfolding next_key
  next_key-above key [] x m = elim m [ ]
  next_key-above key (r ∷ rows) x (Memᴰ.head e) = rw e (omega arith)
  next_key-above key (r ∷ rows) x (Memᴰ.tail m) = omega (arith, next_key-above key rows x m)

  created :
      (key : Row → ℕ) (rekey : ℕ → Row → Row)
      → ((k : ℕ) (r : Row) → key (rekey k r) ≡ k)
      → (r : Row) (rows : List Row) (r' : Row) (rows' : List Row) → rekey (next_key key rows) r ≡ r'
      → rows ++ rekey (next_key key rows) r ∷ [] ≡ rows'
      → (r' ≡ rekey (key r') r)
        × (rows' ≡ rows ++ r' ∷ [])
        × ((x : Row) → Memᴰ x rows → key x ≢ key r')
  created key rekey back r rows r' rows' e e' =
      let k : key r' ≡ next_key key rows = ap key (sym e) ∙ back (next_key key rows) r in
      (
        sym e ∙ ap (λ n. rekey n r) (sym k),
        sym e' ∙ ap (λ x. rows ++ x ∷ []) e,
        λ x m same. absurd (omega (arith, next_key-above key rows x m, same ∙ k)),
      )

  -- The table in memory behaves as gorm is relied on to, where a new key can be set and read back.
  pub memory-IsGorm :
      (key : Row → ℕ) (rekey : ℕ → Row → Row)
      → ((k : ℕ) (r : Row) → key (rekey k r) ≡ k)
      → IsGorm key rekey (memory key rekey)
  memory-IsGorm key rekey back = record {
    first_found = first_row-found;
    first_missing = first_row-missing;
    first_error = λ p rows e h k. first_row-error p rows e h;
    find_sound =
        λ p rows found h r m. keep_sound p rows r (subst (Memᴰ r) (ok-injective (sym h)) m);
    find_complete =
        λ p rows found h r m t. subst (Memᴰ r) (ok-injective h) (keep_complete p rows r m t);
    count_ok = λ p rows n h. ok-injective (sym h);
    create_ok = λ r rows r' rows' h.
        created key rekey back r rows r' rows' (ap (λ p. p.0) (ok-injective h))
          (ap (λ p. p.1) (ok-injective h));
    save_ok = λ r rows rows' h. ok-injective (sym h);
    delete_ok = λ k rows rows' h. ok-injective (sym h);
    delete_where_ok = λ p n rows rows' h.
        (ap (λ x. x.0) (ok-injective (sym h)), ap (λ x. x.1) (ok-injective (sym h)));
    update_ok = λ p f rows rows' h. ok-injective (sym h);
  }

  first_row-answers :
      (p : Row → Bool) (rows : List Row)
      → ((r : Row) × (first_row p rows ≡ ok r)) ⊎ (first_row p rows ≡ err record_not_found)
  unfolding first_row
  first_row-answers p [] = inr refl
  first_row-answers p (x ∷ rows) = elim (Bool-cases (p x)) [
    | inl t ↦ rw t (inl (x, refl))
    | inr f ↦ rw f (first_row-answers p rows)
  ]

  pub memory-Answers : (key : Row → ℕ) (rekey : ℕ → Row → Row) → Answers (memory key rekey)
  memory-Answers key rekey = record {
    first_answers = first_row-answers;
    create_answers = λ r rows. (_, _, refl);
    save_answers = λ r rows. (_, refl);
    delete_where_answers = λ p rows. (_, _, refl);
    update_answers = λ p f rows. (_, refl);
  }
