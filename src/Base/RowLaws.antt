-- ===== src/Base/RowLaws.antt =====
-- Properties that every row of a table has, under the statements.
use Prim.Native.Nat.{ℕ}
use mathlib.Core.Path.{◌≡◌, refl, sym, ap, subst}
use mathlib.Core.Logic.{◌⊎◌, inl, inr}
use mathlib.Core.Bool.{Bool}
use mathlib.Core.List.{List, [], ◌∷◌, ◌++◌, map, Memᴰ}
use package.passwall_server.Base.Tests.{◌==◌, Bool-cases}
use package.passwall_server.Base.Rows.{All, keep, upsert}

module _ {Row : Type 0} where
  pub mem-cons : {r x : Row} {rows : List Row} → Memᴰ r (x ∷ rows) → (r ≡ x) ⊎ Memᴰ r rows
  mem-cons (Memᴰ.head e) = inl e
  mem-cons (Memᴰ.tail m) = inr m

  pub mem-append : (r : Row) (xs ys : List Row) → Memᴰ r (xs ++ ys) → Memᴰ r xs ⊎ Memᴰ r ys
  mem-append r [] ys m = inr m
  mem-append r (x ∷ xs) ys (Memᴰ.head e) = inl (Memᴰ.head e)
  mem-append r (x ∷ xs) ys (Memᴰ.tail m) = elim (mem-append r xs ys m) [
    | inl h ↦ inl (Memᴰ.tail h)
    | inr h ↦ inr h
  ]

  pub All-keep {κ} :
      (P : Row → Type κ) (p : Row → Bool) (rows : List Row) → All P rows → All P (keep p rows)
  unfolding keep
  All-keep P p [] h = h
  All-keep P p (x ∷ rows) h = elim (Bool-cases (p x)) [
    | inl e ↦ rw e (h.0, All-keep P p rows h.1)
    | inr e ↦ rw e (All-keep P p rows h.1)
  ]

  pub All-upsert {κ} :
      (P : Row → Type κ) (key : Row → ℕ) (r : Row) (rows : List Row)
      → P r
      → All P rows
      → All P (upsert key r rows)
  unfolding upsert
  All-upsert P key r [] h hs = (h, tt)
  All-upsert P key r (x ∷ rows) h hs = elim (Bool-cases (key x == key r)) [
    | inl e ↦ rw e (h, hs.1)
    | inr e ↦ rw e (hs.0, All-upsert P key r rows h hs.1)
  ]

  pub All-append {κ} :
      (P : Row → Type κ) (xs ys : List Row) → All P xs → All P ys → All P (xs ++ ys)
  All-append P [] ys h k = k
  All-append P (x ∷ xs) ys h k = (h.0, All-append P xs ys h.1 k)

  pub All-mem {κ} : (P : Row → Type κ) (r : Row) (rows : List Row) → All P rows → Memᴰ r rows → P r
  All-mem P r [] h m = elim m [ ]
  All-mem P r (x ∷ rows) h (Memᴰ.head e) = subst P (sym e) h.0
  All-mem P r (x ∷ rows) h (Memᴰ.tail m) = All-mem P r rows h.1 m

  pub All-map {κ} :
      (P : Row → Type κ) (f : Row → Row) (rows : List Row)
      → ((x : Row) → P x → P (f x))
      → All P rows
      → All P (map f rows)
  All-map P f [] k h = tt
  All-map P f (x ∷ rows) k h = (k x h.0, All-map P f rows k h.1)

  pub All-weaken {κ ι} :
      (P : Row → Type κ) (Q : Row → Type ι) (rows : List Row)
      → ((x : Row) → P x → Q x)
      → All P rows
      → All Q rows
  All-weaken P Q [] k h = tt
  All-weaken P Q (x ∷ rows) k h = (k x h.0, All-weaken P Q rows k h.1)

  pub All-self : (rows : List Row) → All (λ x. Memᴰ x rows) rows
  All-self [] = tt
  All-self (x ∷ rows) = (
    Memᴰ.head refl,
    All-weaken (λ y. Memᴰ y rows) (λ y. Memᴰ y (x ∷ rows)) rows (λ y m. Memᴰ.tail m)
        (All-self rows),
  )

  pub mem-append_last : (r : Row) (rows : List Row) → Memᴰ r (rows ++ r ∷ [])
  mem-append_last r [] = Memᴰ.head refl
  mem-append_last r (x ∷ rows) = Memᴰ.tail (mem-append_last r rows)

  pub mem-append_left : (x r : Row) (rows : List Row) → Memᴰ x rows → Memᴰ x (rows ++ r ∷ [])
  mem-append_left x r [] m = elim m [ ]
  mem-append_left x r (y ∷ rows) (Memᴰ.head e) = Memᴰ.head e
  mem-append_left x r (y ∷ rows) (Memᴰ.tail m) = Memᴰ.tail (mem-append_left x r rows m)

  -- A row of a table with one row added is of the table or is that row.
  pub mem-append_one :
      (x r : Row) (rows : List Row) → Memᴰ x (rows ++ r ∷ []) → Memᴰ x rows ⊎ (x ≡ r)
  mem-append_one x r rows m = elim (mem-append x rows (r ∷ []) m) [
    | inl h ↦ inl h
    | inr h ↦ elim (mem-cons h) [ inl e ↦ inr e | inr n ↦ elim n [ ] ]
  ]

  -- The rows of a table whose rows are changed.
  pub mem-map : (f : Row → Row) (x : Row) (rows : List Row) → Memᴰ x rows → Memᴰ (f x) (map f rows)
  mem-map f x [] m = elim m [ ]
  mem-map f x (y ∷ rows) (Memᴰ.head e) = Memᴰ.head (ap f e)
  mem-map f x (y ∷ rows) (Memᴰ.tail m) = Memᴰ.tail (mem-map f x rows m)

  pub map-mem :
      (f : Row → Row) (y : Row) (rows : List Row)
      → Memᴰ y (map f rows)
      → (x : Row) × Memᴰ x rows × (y ≡ f x)
  map-mem f y [] m = elim m [ ]
  map-mem f y (x ∷ rows) m = elim (mem-cons m) [
    | inl e ↦ (x, Memᴰ.head refl, e)
    | inr n ↦ let (z, k, e) = map-mem f y rows n in (z, Memᴰ.tail k, e)
  ]
