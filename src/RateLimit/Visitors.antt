-- ===== src/RateLimit/Visitors.antt =====
-- The map of visitors: what is found after a change.
use passwall_server.Base.{
  ℕ, ◌-◌, Option, none, some, String, true, false, [], ◌∷◌, str_eq, ltb, if◌then◌else◌, ◌≡◌, ◌≢◌,
  refl, sym, ap, ◌∙◌, inl, inr, arith, Bool-cases, eq_iff,
}
use passwall_server.RateLimit.Limiter.{
  Visitor, Visitors, find_visitor, put_visitor, max_age, cleanup_visitors,
}

-- Every address has one visitor.
abbrev pub OneEach : Visitors → Type 0
OneEach [] = Unit {0}
OneEach ((j, v) ∷ vs) = (find_visitor j vs ≡ none) × OneEach vs

abbrev pub kept : ℕ → Option Visitor → Option Visitor
kept now none = none
kept now (some v) = if ltb max_age (now - v.last_seen) then none else some v

str_eq_self : (j : String) → str_eq j j ≡ true
str_eq_self j = (eq_iff j j).1 refl

str_neq : (i j : String) → str_eq i j ≡ false → i ≢ j
str_neq i j h e = let t = (eq_iff i j).1 e in cc

str_eq_flip : (i j : String) → str_eq i j ≡ false → str_eq j i ≡ false
str_eq_flip i j f = elim (Bool-cases (str_eq j i)) [
  | inl t ↦ absurd (str_neq i j f (sym ((eq_iff j i).0 t)))
  | inr g ↦ g
]

pub find_visitor-put_visitor :
    (ip : String) (v : Visitor) (vs : Visitors) → find_visitor ip (put_visitor ip v vs) ≡ some v
unfolding find_visitor put_visitor
find_visitor-put_visitor ip v [] = rw (str_eq_self ip) refl
find_visitor-put_visitor ip v ((j, w) ∷ vs) = elim (Bool-cases (str_eq j ip)) [
  | inl t ↦ rw (t, str_eq_self ip) refl
  | inr f ↦ rw (f, f) (find_visitor-put_visitor ip v vs)
]

pub find_visitor-put_other :
    (ip j : String) (v : Visitor) (vs : Visitors)
    → str_eq j ip ≡ false
    → find_visitor ip (put_visitor j v vs) ≡ find_visitor ip vs
unfolding find_visitor put_visitor
find_visitor-put_other ip j v [] ne = rw ne refl
find_visitor-put_other ip j v ((i, w) ∷ vs) ne = elim (Bool-cases (str_eq i j)) [
  | inl t ↦
      let e : str_eq i ip ≡ false = ap (λ k. str_eq k ip) ((eq_iff i j).0 t) ∙ ne in
      rw (t, e, ne) refl
  | inr f ↦ rw f (ap (λ x. if str_eq i ip then some w else x) (find_visitor-put_other ip j v vs ne))
]

find_visitor-cleanup_none :
    (now : ℕ) (ip : String) (vs : Visitors)
    → find_visitor ip vs ≡ none
    → find_visitor ip (cleanup_visitors now vs) ≡ none
unfolding find_visitor cleanup_visitors
find_visitor-cleanup_none now ip [] h = refl
find_visitor-cleanup_none now ip ((j, v) ∷ vs) h = elim (Bool-cases (str_eq j ip)) [
  | inl t ↦ absurd (ground arith)
  | inr f ↦
      let same = find_visitor-cleanup_none now ip vs (rw f at h) in
      elim (Bool-cases (ltb max_age (now - v.last_seen))) [
        | inl old ↦ rw old same
        | inr new ↦ rw (new, f) same
      ]
]

pub find_visitor-cleanup_visitors :
    (now : ℕ) (ip : String) (vs : Visitors)
    → OneEach vs
    → find_visitor ip (cleanup_visitors now vs) ≡ kept now (find_visitor ip vs)
unfolding find_visitor cleanup_visitors
find_visitor-cleanup_visitors now ip [] d = refl
find_visitor-cleanup_visitors now ip ((j, v) ∷ vs) d =
    elim (Bool-cases (ltb max_age (now - v.last_seen))) [
      | inl old ↦ elim (Bool-cases (str_eq j ip)) [
        | inl t ↦
            let gone : find_visitor ip vs ≡ none =
              ap (λ i. find_visitor i vs) (sym ((eq_iff j ip).0 t)) ∙ d.0 in
            rw (old, t, old) (find_visitor-cleanup_none now ip vs gone)
        | inr f ↦ rw (old, f) (find_visitor-cleanup_visitors now ip vs d.1)
      ]
      | inr new ↦ elim (Bool-cases (str_eq j ip)) [
        | inl t ↦ rw (new, t, new) refl
        | inr f ↦ rw (new, f) (find_visitor-cleanup_visitors now ip vs d.1)
      ]
    ]

pub OneEach-cleanup_visitors :
    (now : ℕ) (vs : Visitors) → OneEach vs → OneEach (cleanup_visitors now vs)
unfolding cleanup_visitors
OneEach-cleanup_visitors now [] d = tt
OneEach-cleanup_visitors now ((j, v) ∷ vs) d = elim (Bool-cases (ltb max_age (now - v.last_seen))) [
  | inl t ↦ rw t (OneEach-cleanup_visitors now vs d.1)
  | inr f ↦ rw f (find_visitor-cleanup_none now j vs d.0, OneEach-cleanup_visitors now vs d.1)
]

pub OneEach-put_visitor :
    (ip : String) (v : Visitor) (vs : Visitors) → OneEach vs → OneEach (put_visitor ip v vs)
unfolding put_visitor find_visitor
OneEach-put_visitor ip v [] d = (refl, tt)
OneEach-put_visitor ip v ((j, w) ∷ vs) d = elim (Bool-cases (str_eq j ip)) [
  | inl t ↦ rw t (ap (λ i. find_visitor i vs) (sym ((eq_iff j ip).0 t)) ∙ d.0, d.1)
  | inr f ↦
      rw f (
        find_visitor-put_other j ip v vs (str_eq_flip j ip f) ∙ d.0,
        OneEach-put_visitor ip v vs d.1,
      )
]
