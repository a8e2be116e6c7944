-- ===== src/Subscription/Uniqueness.antt =====
-- At most one subscription with full access per organization, the rule that the comments of Create
-- in internal/service/subscription_service.go state.
use passwall_server.Base.{
  ℕ, some, Bool, true, false, [], ◌∷◌, ◌==◌, ◌&&◌, if◌then◌else◌, ◌≡◌, ◌≢◌, refl, sym, ap, subst,
  ◌∙◌, ◌⊎◌, inl, inr, Memᴰ, map, ◌++◌, upsert, Distinct, Distinct-upsert, Distinct-append,
  mem-upsert, mem-append_one, Bool-cases, ==_self, All,
}
use passwall_server.Subscription.Record.{expired, Subscription, Table, key, active_like}

apart : (b : Bool) → b ≡ true → b ≡ false → ⊥
apart b h k = cc

-- Keys are distinct, and two subscriptions of one organization that both give full access are one.
pub record IsUnique (rows : Table) : Type 0 where
  pub keys : Distinct key rows
  pub single :
      (x y : Subscription)
      → Memᴰ x rows
      → Memᴰ y rows
      → x.organization_id ≡ y.organization_id
      → active_like x.state ≡ true
      → active_like y.state ≡ true
      → x ≡ y

-- What ExpireActiveByOrganizationID does to one row.
abbrev pub ended : ℕ → ℕ → Subscription → Subscription
ended org_id now s =
    if (s.organization_id == org_id) && active_like s.state
    then record s { state = expired; ended_at = some now }
    else s

-- No subscription of the organization gives full access.
abbrev pub Vacant : ℕ → Table → Type 0
Vacant org_id rows =
    (x : Subscription) → Memᴰ x rows → x.organization_id ≡ org_id → active_like x.state ≡ false

pub mem-map :
    (f : Subscription → Subscription) (y : Subscription) (rows : Table)
    → Memᴰ y (map f rows)
    → (x : Subscription) × Memᴰ x rows × (y ≡ f x)
mem-map f y [] m = elim m [ ]
mem-map f y (x ∷ rows) (Memᴰ.head e) = (x, Memᴰ.head refl, e)
mem-map f y (x ∷ rows) (Memᴰ.tail m) = let (z, mz, e) = mem-map f y rows m in (z, Memᴰ.tail mz, e)

-- A row with full access after the statement is one that the statement left alone.
ended-cases :
    (o now : ℕ) (x : Subscription)
    → active_like (ended o now x).state ≡ true
    → (ended o now x ≡ x) × (((x.organization_id == o) && active_like x.state) ≡ false)
ended-cases o now x h = elim (Bool-cases ((x.organization_id == o) && active_like x.state)) [
  | inl e ↦ absurd (
      apart _
        (subst
          (λ b.
            active_like (if b then record x { state = expired; ended_at = some now } else x).state
            ≡ true)
          e h)
        refl)
  | inr e ↦ (ap (λ b. if b then record x { state = expired; ended_at = some now } else x) e, e)
]

ended-key : (o now : ℕ) (x : Subscription) → (ended o now x).id ≡ x.id
ended-key o now x = elim (Bool-cases ((x.organization_id == o) && active_like x.state)) [
  | inl e ↦ rw e refl
  | inr e ↦ rw e refl
]

Distinct-ended :
    (o now : ℕ) (rows : Table) → Distinct key rows → Distinct key (map (ended o now) rows)
Distinct-ended o now [] d = tt
Distinct-ended o now (x ∷ rows) d = (rest rows d.0, Distinct-ended o now rows d.1)
  where
    rest :
        (ys : Table)
        → All (λ y. y.id ≢ x.id) ys
        → All (λ y. y.id ≢ (ended o now x).id) (map (ended o now) ys)
    rest [] h = tt
    rest (y ∷ ys) h =
        ((λ same. h.0 (sym (ended-key o now y) ∙ same ∙ ended-key o now x)), rest ys h.1)

pub ended-IsUnique : (o now : ℕ) (rows : Table) → IsUnique rows → IsUnique (map (ended o now) rows)
ended-IsUnique o now rows u = record {
  keys = Distinct-ended o now rows u.keys;
  single = λ x y mx my eo ax ay.
      let (x', mx', ex) = mem-map (ended o now) x rows mx in
      let (y', my', ey) = mem-map (ended o now) y rows my in
      let (sx, _) = ended-cases o now x' (subst (λ z. active_like z.state ≡ true) ex ax) in
      let (sy, _) = ended-cases o now y' (subst (λ z. active_like z.state ≡ true) ey ay) in
      let px : x ≡ x' = ex ∙ sx in
      let py : y ≡ y' = ey ∙ sy in
      px
      ∙ u.single x' y' mx' my'
          (ap (λ z. z.organization_id) (sym px) ∙ eo ∙ ap (λ z. z.organization_id) py)
          (subst (λ z. active_like z.state ≡ true) px ax)
          (subst (λ z. active_like z.state ≡ true) py ay)
      ∙ sym py;
}

pub ended-Vacant : (o now : ℕ) (rows : Table) → Vacant o (map (ended o now) rows)
ended-Vacant o now rows x m e = elim (Bool-cases (active_like x.state)) [
  | inr f ↦ f
  | inl t ↦
      let (x', mx, ex) = mem-map (ended o now) x rows m in
      let (same, off) = ended-cases o now x' (subst (λ z. active_like z.state ≡ true) ex t) in
      let p : x ≡ x' = ex ∙ same in
      let eo : x'.organization_id ≡ o = ap (λ z. z.organization_id) (sym p) ∙ e in
      let on : active_like x'.state ≡ true = subst (λ z. active_like z.state ≡ true) p t in
      absurd
        (apart _ (ap (λ b. b && active_like x'.state) (ap (λ n. n == o) eo ∙ ==_self o) ∙ on) off)
]

-- A subscription added to an organization without one that gives full access.
pub append-IsUnique :
    (rows : Table) (s : Subscription)
    → IsUnique rows
    → Vacant s.organization_id rows
    → ((x : Subscription) → Memᴰ x rows → key x ≢ key s)
    → IsUnique (rows ++ s ∷ [])
append-IsUnique rows s u v fresh = record {
  keys = Distinct-append key s rows u.keys fresh;
  single = λ x y mx my eo ax ay. elim (mem-append_one x s rows mx) [
    | inl hx ↦ elim (mem-append_one y s rows my) [
      | inl hy ↦ u.single x y hx hy eo ax ay
      | inr ey ↦ absurd (apart _ ax (v x hx (eo ∙ ap (λ z. z.organization_id) ey)))
    ]
    | inr ex ↦ elim (mem-append_one y s rows my) [
      | inl hy ↦ absurd (apart _ ay (v y hy (sym eo ∙ ap (λ z. z.organization_id) ex)))
      | inr ey ↦ ex ∙ sym ey
    ]
  ];
}

-- A saved row that gives full access comes from one that did, or no other of its organization does.
abbrev pub Safe : Table → Subscription → Subscription → Type 0
Safe rows old new =
    active_like new.state ≡ true → (active_like old.state ≡ true) ⊎ Vacant old.organization_id rows

pub save-IsUnique :
    (rows : Table) (old new : Subscription)
    → IsUnique rows
    → Memᴰ old rows
    → new.id ≡ old.id
    → new.organization_id ≡ old.organization_id
    → Safe rows old new
    → IsUnique (upsert key new rows)
save-IsUnique rows old new u m ei eo safe = record {
  keys = Distinct-upsert key new rows u.keys;
  single = λ x y mx my e ax ay. elim (mem-upsert key new x rows u.keys mx) [
    | inl hx ↦ elim (mem-upsert key new y rows u.keys my) [
      | inl hy ↦ hx ∙ sym hy
      | inr (hy, ny) ↦ absurd (
          clash y hy ny (sym e ∙ ap (λ z. z.organization_id) hx)
            (subst (λ z. active_like z.state ≡ true) hx ax) ay)
    ]
    | inr (hx, nx) ↦ elim (mem-upsert key new y rows u.keys my) [
      | inl hy ↦ absurd (
          clash x hx nx (e ∙ ap (λ z. z.organization_id) hy)
            (subst (λ z. active_like z.state ≡ true) hy ay) ax)
      | inr (hy, ny) ↦ u.single x y hx hy e ax ay
    ]
  ];
}
  where
    clash :
        (z : Subscription)
        → Memᴰ z rows
        → key z ≢ key new
        → z.organization_id ≡ new.organization_id
        → active_like new.state ≡ true
        → active_like z.state ≡ true
        → ⊥
    clash z mz ne eo' an az = elim (safe an) [
      | inl ao ↦ ne (ap key (u.single z old mz m (eo' ∙ eo) az ao) ∙ sym ei)
      | inr v ↦ apart _ az (v z mz (eo' ∙ eo))
    ]
