-- ===== src/Base/Keys.antt =====
-- Tables whose rows have distinct keys, under the statements.
use Prim.Native.Nat.{ℕ}
use mathlib.Core.Path.{◌≡◌, refl, sym, ap, subst, ◌∙◌}
use mathlib.Core.Logic.{◌≢◌, ◌⊎◌, inl, inr}
use mathlib.Core.Bool.{Bool, false}
use mathlib.Core.List.{List, [], ◌∷◌, ◌++◌, map, Memᴰ}
use native.Mathlib.Omega.{arith}
use package.passwall_server.Base.Tests.{◌==◌, Bool-cases, ==→eq}
use package.passwall_server.Base.Rows.{All, keep, upsert}
use package.passwall_server.Base.RowLaws.{
  mem-cons, All-mem, All-keep, All-upsert, All-append, All-map, All-weaken,
}

differ : (a b : ℕ) → (a == b) ≡ false → a ≢ b
differ a b h e = ground arith

module _ {Row : Type 0} (key : Row → ℕ) where
  abbrev pub Distinct : List Row → Type 0
  Distinct [] = Unit
  Distinct (x ∷ rows) = All (λ y. key y ≢ key x) rows × Distinct rows

  pub mem-upsert :
      (r x : Row) (rows : List Row)
      → Distinct rows
      → Memᴰ x (upsert key r rows)
      → (x ≡ r) ⊎ (Memᴰ x rows × (key x ≢ key r))
  unfolding upsert
  mem-upsert r x [] d m = elim (mem-cons m) [ inl e ↦ inl e | inr n ↦ elim n [ ] ]
  mem-upsert r x (y ∷ rows) d m = elim (Bool-cases (key y == key r)) [
    | inl e ↦ elim (mem-cons (rw e at m)) [
      | inl h ↦ inl h
      | inr n ↦ inr (
        Memᴰ.tail n,
        λ same. All-mem (λ z. key z ≢ key y) x rows d.0 n (same ∙ sym (==→eq _ _ e)),
      )
    ]
    | inr e ↦ elim (mem-cons (rw e at m)) [
      | inl h ↦ inr (Memᴰ.head h, rw h (λ same. differ (key y) (key r) e same))
      | inr n ↦ elim (mem-upsert r x rows d.1 n) [
        | inl h ↦ inl h
        | inr (k, ne) ↦ inr (Memᴰ.tail k, ne)
      ]
    ]
  ]

  pub upsert-mem_self : (r : Row) (rows : List Row) → Memᴰ r (upsert key r rows)
  unfolding upsert
  upsert-mem_self r [] = Memᴰ.head refl
  upsert-mem_self r (y ∷ rows) = elim (Bool-cases (key y == key r)) [
    | inl e ↦ rw e (Memᴰ.head refl)
    | inr e ↦ rw e (Memᴰ.tail (upsert-mem_self r rows))
  ]

  pub upsert-mem :
      (r x : Row) (rows : List Row) → Memᴰ x rows → key x ≢ key r → Memᴰ x (upsert key r rows)
  unfolding upsert
  upsert-mem r x [] m ne = elim m [ ]
  upsert-mem r x (y ∷ rows) m ne = elim (Bool-cases (key y == key r)) [
    | inl e ↦ elim (mem-cons m) [
      | inl h ↦ absurd (ne (ap key h ∙ ==→eq _ _ e))
      | inr n ↦ rw e (Memᴰ.tail n)
    ]
    | inr e ↦ elim (mem-cons m) [
      | inl h ↦ rw e (Memᴰ.head h)
      | inr n ↦ rw e (Memᴰ.tail (upsert-mem r x rows n ne))
    ]
  ]

  pub Distinct-upsert : (r : Row) (rows : List Row) → Distinct rows → Distinct (upsert key r rows)
  unfolding upsert
  Distinct-upsert r [] d = (tt, tt)
  Distinct-upsert r (y ∷ rows) d = elim (Bool-cases (key y == key r)) [
    | inl e ↦ rw e (subst (λ k. All (λ z. key z ≢ k) rows) (==→eq _ _ e) d.0, d.1)
    | inr e ↦ rw e (
      All-upsert (λ z. key z ≢ key y) key r rows (λ same. differ (key y) (key r) e (sym same)) d.0,
      Distinct-upsert r rows d.1,
    )
  ]

  pub Distinct-append :
      (r : Row) (rows : List Row)
      → Distinct rows
      → ((x : Row) → Memᴰ x rows → key x ≢ key r)
      → Distinct (rows ++ r ∷ [])
  Distinct-append r [] d fresh = (tt, tt)
  Distinct-append r (y ∷ rows) d fresh = (
    All-append (λ z. key z ≢ key y) rows (r ∷ []) d.0
        ((λ same. fresh y (Memᴰ.head refl) (sym same)), tt),
    Distinct-append r rows d.1 (λ x m. fresh x (Memᴰ.tail m)),
  )

  pub Distinct-keep : (p : Row → Bool) (rows : List Row) → Distinct rows → Distinct (keep p rows)
  unfolding keep
  Distinct-keep p [] d = tt
  Distinct-keep p (y ∷ rows) d = elim (Bool-cases (p y)) [
    | inl e ↦ rw e (All-keep (λ z. key z ≢ key y) p rows d.0, Distinct-keep p rows d.1)
    | inr e ↦ rw e (Distinct-keep p rows d.1)
  ]

  -- Two rows with one key are one row.
  pub Distinct-eq :
      (rows : List Row)
      → Distinct rows
      → (x y : Row) → Memᴰ x rows
      → Memᴰ y rows
      → key x ≡ key y
      → x ≡ y
  Distinct-eq [] d x y mx my e = elim mx [ ]
  Distinct-eq (z ∷ rows) d x y mx my e = elim (mem-cons mx) [
    | inl hx ↦ elim (mem-cons my) [
      | inl hy ↦ hx ∙ sym hy
      | inr ny ↦ absurd (All-mem (λ w. key w ≢ key z) y rows d.0 ny (sym e ∙ ap key hx))
    ]
    | inr nx ↦ elim (mem-cons my) [
      | inl hy ↦ absurd (All-mem (λ w. key w ≢ key z) x rows d.0 nx (e ∙ ap key hy))
      | inr ny ↦ Distinct-eq rows d.1 x y nx ny e
    ]
  ]

  -- An update that keeps the keys.
  pub Distinct-map :
      (f : Row → Row) (rows : List Row)
      → ((x : Row) → key (f x) ≡ key x)
      → Distinct rows
      → Distinct (map f rows)
  Distinct-map f [] k d = tt
  Distinct-map f (x ∷ rows) k d = (
    All-map (λ y. key y ≢ key (f x)) f rows (λ y ne e. ne (sym (k y) ∙ e))
        (All-weaken (λ y. key y ≢ key x) (λ y. key y ≢ key (f x)) rows (λ y ne e. ne (e ∙ k x))
          d.0),
    Distinct-map f rows k d.1,
  )
