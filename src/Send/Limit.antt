-- ===== src/Send/Limit.antt =====
-- The limit of accesses to a send.
use passwall_server.Base.{
  Option, none, Bool, ◌&&◌, and_intro, ℕ, suc, ◌+◌, ◌≤◌, ◌<◌, some, String, true, false, List, [],
  ◌∷◌, Gorm, IsGorm, Answers, Result, ok, err, ◌≡◌, refl, sym, ap, subst, ◌∙◌, str_eq, ◌⊎◌, inl,
  inr, arith, Bool-cases, eq_iff, Memᴰ, if◌then◌else◌,
}
use passwall_server.Send.Record.{Send, SendAccessDto, Table, key, rekey, by_access_id}
use passwall_server.Send.Service.{Services}
use passwall_server.Send.Rows.{
  Counted, Counted-answers, increment_lem, OneSend, OneSend-count, Accessed, Accessed-count,
  Accessed-count_self,
}
use passwall_server.Send.Conditions.{Attempt, CanOpen, Below}
use passwall_server.Send.Access.{attempt, attempt-Outcome, Touched, attempt-Touched}

abbrev pub is_absent : Option String → Bool
is_absent none = true
is_absent (some notes) = false

-- The answer has something of the payload: data, or notes.
abbrev pub gives : Result SendAccessDto → ℕ
gives (err e) = 0
gives (ok dto) = if str_eq dto.data_text "" && is_absent dto.notes then 0 else 1

-- How often the payload of a send is given, in a run of requests at these times.
unfoldable pub times_given : Gorm Send → Services → String → List (ℕ × String × Attempt) → Table → ℕ
times_given db ext access_id [] rows = 0
times_given db ext access_id ((now, id, a) ∷ run) rows =
    (if str_eq id access_id then gives (attempt db ext now id a rows).0 else 0)
    + times_given db ext access_id run (attempt db ext now id a rows).1

withheld-gives : (dto : SendAccessDto) → dto.data_text ≡ "" → dto.notes ≡ none → gives (ok dto) ≡ 0
withheld-gives dto e n = rw (e, n) refl

gives-cases : (dto : SendAccessDto) → (gives (ok dto) ≡ 0) ⊎ (gives (ok dto) ≡ 1)
gives-cases dto = elim (Bool-cases (str_eq dto.data_text "" && is_absent dto.notes)) [
  | inl t ↦ rw t (inl refl)
  | inr f ↦ rw f (inr refl)
]

below_lem : (o : Option ℕ) (limit m n : ℕ) → o ≡ some limit → n ≤ m → Below o m → n < limit
below_lem none limit m n l le b = cc
below_lem (some k) limit m n l le b = let e : k ≡ limit = cc in omega (arith, e)

self_found :
    (a : String) (s : Send) → s.access_id ≡ a → s.deleted_at ≡ none → by_access_id a s ≡ true
self_found a s e d = rw d (and_intro _ true ((eq_iff s.access_id a).1 e) refl)

module _ (db : Gorm Send) (ext : Services) (reliable : IsGorm key rekey db) (answers : Answers db)
    (access_id : String) (limit : ℕ) where
  abbrev Holds : ℕ → Table → Type 0
  Holds n rows = OneSend access_id rows × Accessed access_id limit n rows

  Holds-Touched :
      (n : ℕ) (rows rows' : Table) → Touched db rows rows' → Holds n rows → Holds n rows'
  Holds-Touched n rows rows' (inl e) h = rw e h
  Holds-Touched n rows rows' (inr (id, e)) h =
      rw (e ∙ increment_lem db id rows reliable answers)
        (OneSend-count access_id id rows h.0, Accessed-count access_id limit n id rows h.1)

  -- An access that is counted: the limit was not reached.
  Holds-counted :
      (n now : ℕ) (rows rows' : Table) (s : Send)
      → CanOpen now access_id rows s
      → Counted db s.id rows rows'
      → Holds n rows
      → (n < limit) × Holds (suc n) rows'
  Holds-counted n now rows rows' s (ms, es, ds, off, live, below) counted (one, (x, m, p, l, c)) =
      let ps = self_found access_id s es ds in
      let same : s ≡ x = one s x ms m ps p in
      let l' = ap (λ y. y.max_access_count) same ∙ l in
      let c' = subst (λ y. n ≤ y.access_count) (sym same) c in
      (
        below_lem s.max_access_count limit s.access_count n l' c' below,
        rw (Counted-answers db s.id rows rows' answers counted) (
          OneSend-count access_id s.id rows one,
          Accessed-count_self access_id limit n rows s ms ps l' c',
        ),
      )

  given_or_not :
      (n now : ℕ) (a : Attempt) (rows : Table) (o : Result SendAccessDto × Table)
      → attempt db ext now access_id a rows ≡ o
      → Holds n rows
      → (gives o.0 ≡ 0) ⊎ ((gives o.0 ≡ 1) × (n < limit) × Holds (suc n) o.1)
  given_or_not n now a rows (err e, rows') h k = inl refl
  given_or_not n now a rows (ok dto, rows') h k =
      let (s, can, out) = attempt-Outcome db ext now access_id a rows rows' dto reliable h in
      elim out [
        | inl (locked, e, none_left, w, t) ↦ inl (withheld-gives dto e none_left)
        | inr (u, e, notes, counted) ↦ elim (gives-cases dto) [
          | inl z ↦ inl z
          | inr o ↦
              let (lt, next) = Holds-counted n now rows rows' s can counted k in inr (o, lt, next)
        ]
      ]

  times_given-Holds :
      (n : ℕ) (run : List (ℕ × String × Attempt)) (rows : Table)
      → n ≤ limit
      → Holds n rows
      → times_given db ext access_id run rows + n ≤ limit
  unfolding times_given
  times_given-Holds n [] rows le h = omega arith
  times_given-Holds n ((now, id, a) ∷ run) rows le h =
      let rows' = (attempt db ext now id a rows).1 in
      let rest =
        times_given-Holds n run rows' le
          (Holds-Touched n rows rows' (attempt-Touched db ext now id a rows) h) in
      elim (Bool-cases (str_eq id access_id)) [
        | inr f ↦ rw f (omega (arith, rest))
        | inl t ↦
            let e = (eq_iff id access_id).0 t in
            elim (given_or_not n now a rows (attempt db ext now id a rows)
              (ap (λ i. attempt db ext now i a rows) (sym e)) h) [
                | inl z ↦ rw (t, z) (omega (arith, rest))
                | inr (o, lt, next) ↦
                    rw (t, o) (omega (arith, times_given-Holds (suc n) run rows' lt next))
              ]
      ]

-- Where no statement fails, one send that is not deleted has the access identifier, and it has a
-- limit that its accesses do not exceed: in a run of requests by access identifier, of any sends,
-- the answers that have data or notes of it are at most as many as the limit still allows.
pub payloads_within_limit :
    (db : Gorm Send) (ext : Services) (access_id : String) (limit : ℕ)
    (run : List (ℕ × String × Attempt)) (rows : Table) (s : Send)
    → IsGorm key rekey db
    → Answers db
    → OneSend access_id rows
    → Memᴰ s rows
    → by_access_id access_id s ≡ true
    → s.max_access_count ≡ some limit
    → s.access_count ≤ limit
    → times_given db ext access_id run rows + s.access_count ≤ limit
payloads_within_limit db ext access_id limit run rows s reliable answers one m p l le =
    times_given-Holds db ext reliable answers access_id limit s.access_count run rows le
      (one, (s, m, p, l, omega arith))
