-- ===== src/Send/Retention.antt =====
-- How long a send is kept.
use passwall_server.Base.{
  ℕ, ◌+◌, ◌≤◌, ◌<◌, Option, none, some, String, Bool, true, false, not, Gorm, IsGorm, Result, ok,
  err, Error, ◌≡◌, refl, sym, ap, subst, ◌⊎◌, inl, inr, ◌↔◌, Memᴰ, mem-append_one, mem-append_last,
  leb, ◌&&◌, Bool-cases, eq_iff, and_intro, keep_sound, keep_complete, commit_value_ok, on_success,
  arith,
}
use passwall_server.Send.Record.{
  Send, SendAccessDto, Table, key, rekey, by_access_id, is_due, is_null,
}
use passwall_server.Send.Service.{
  Services, CreateSendRequest, create_send, new_send, cleanup_expired, given, week,
}
use passwall_server.Send.Conditions.{Attempt}
use passwall_server.Send.Access.{attempt, attempt-Outcome}
use passwall_server.Send.Sharing.{Made, create-Made}

-- When a send is due, by the date of the request or a week after it was created.
abbrev pub Due : ℕ → Option ℕ → ℕ → Type 0
Due now none due = due ≡ now + 604_800
Due now (some date) due = due ≡ date

-- A send that a cleanup leaves alone: its date has not come, or a user has deleted it.
abbrev pub Kept : ℕ → Send → Type 0
Kept late s = (late < s.deletion_date) ⊎ ((t : ℕ) × (s.deleted_at ≡ some t))

and_false : (b : Bool) → (b && false) ≡ false
and_false true = refl
and_false false = refl

not_due : (late : ℕ) (s : Send) → is_due late s ≡ false → Kept late s
not_due late s h = elim (Bool-cases (leb s.deletion_date late)) [
  | inr f ↦ inl (ground arith)
  | inl t ↦ inr (deleted s.deleted_at (ground arith))
]
  where
    deleted : (o : Option ℕ) → is_null o ≡ false → (t : ℕ) × (o ≡ some t)
    deleted none h = cc
    deleted (some t) h = (t, refl)

Kept-due : (late : ℕ) (s : Send) → Kept late s → is_due late s ≡ false
Kept-due late s (inl lt) = ground arith
Kept-due late s (inr (t, e)) = rw e (ground arith)

-- The rows that a cleanup leaves.
cleanup_lem :
    (db : Gorm Send) (ext : Services) (late n : ℕ) (rows rows' : Table)
    → IsGorm key rekey db
    → cleanup_expired db ext late rows ≡ (ok n, rows')
    → (r : Send) → Memᴰ r rows' ↔ (Memᴰ r rows × Kept late r)
unfolding cleanup_expired
cleanup_lem db ext late n rows rows' reliable h r =
    let (count, left) =
      reliable.delete_where_ok (is_due late) n rows rows'
        (commit_value_ok (db.delete_where (is_due late) rows) rows rows' n h) in
    (
      λ m.
          let (k, t) = keep_sound (λ x. not (is_due late x)) rows r (subst (Memᴰ r) left m) in
          (k, not_due late r (ground arith)),
      λ q.
          subst (Memᴰ r) (sym left)
            (keep_complete (λ x. not (is_due late x)) rows r q.0 (ap not (Kept-due late r q.1))),
    )

Due-given : (now : ℕ) (o : Option ℕ) → Due now o (given o (now + week))
Due-given now none = refl
Due-given now (some date) = refl

-- An answer shows a send of the identifier.
refused :
    (db : Gorm Send) (ext : Services) (later : ℕ) (access_id : String) (a : Attempt) (rows : Table)
    → IsGorm key rekey db
    → ((r : Send) → Memᴰ r rows → by_access_id access_id r ≡ false)
    → (e : Error) × ((attempt db ext later access_id a rows).0 ≡ err e)
refused db ext later access_id a rows reliable none_has =
    outcome (attempt db ext later access_id a rows) refl
  where
    outcome :
        (o : Result SendAccessDto × Table)
        → attempt db ext later access_id a rows ≡ o
        → (e : Error) × (o.0 ≡ err e)
    outcome (err e, rows') h = (e, refl)
    outcome (ok dto, rows') h =
        let (s, (m, eq, live, enabled, time, count), out) =
          attempt-Outcome db ext later access_id a rows rows' dto reliable h in
        absurd (
          let no = none_has s m in
          let has : by_access_id access_id s ≡ true =
            rw live (and_intro _ true ((eq_iff s.access_id access_id).1 eq) refl) in
          ground arith)

-- Of a send that was created under a new access identifier and a cleanup that succeeds afterwards:
-- the cleanup leaves exactly the sends whose deletion date has not come and those that a user has
-- deleted; before the deletion date of the request, or without one before a week has passed, the
-- new send is among them, and from then on no request with its access identifier is answered.
pub cleanup-create :
    (db : Gorm Send) (ext : Services) (now late later : ℕ) (uuid : String) (drawn : Result String)
    (creator_id : ℕ) (req : CreateSendRequest) (a : Attempt) (n : ℕ) (rows rows' rows'' : Table)
    (s : Send)
    → IsGorm key rekey db
    → create_send db ext now uuid drawn creator_id req rows ≡ (ok s, rows')
    → ((r : Send) → Memᴰ r rows → by_access_id s.access_id r ≡ false)
    → cleanup_expired db ext late rows' ≡ (ok n, rows'')
    → ((r : Send) → Memᴰ r rows'' ↔ (Memᴰ r rows' × Kept late r))
      × ((due : ℕ) × Due now req.deletion_date due
          × (((late < due) × Memᴰ s rows'')
              ⊎ ((due ≤ late)
                  × ((e : Error) × ((attempt db ext later s.access_id a rows'').0 ≡ err e)))))
cleanup-create db ext now late later uuid drawn creator_id req a n rows rows' rows'' s reliable h
      fresh h' =
    let left = cleanup_lem db ext late n rows' rows'' reliable h' in
    let (i, p, e, f, g) =
      on_success (Made db ext now uuid drawn creator_id req rows)
        (create_send db ext now uuid drawn creator_id req rows) s rows'
        (create-Made db ext now uuid drawn creator_id req rows) h in
    let (row, added, other) =
      reliable.create_ok (new_send now uuid creator_id req i p) rows s rows' g in
    let date = ap (λ x. x.deletion_date) row in
    (
      left,
      (
        s.deletion_date,
        subst (Due now req.deletion_date) (sym date) (Due-given now req.deletion_date),
        elim (Bool-cases (leb s.deletion_date late)) [
          | inr before ↦
              let lt : late < s.deletion_date = ground arith in
              inl (lt, (left s).1 (subst (Memᴰ s) (sym added) (mem-append_last s rows), inl lt))
          | inl past ↦ inr (
            ground arith,
            refused db ext later s.access_id a rows'' reliable λ r m.
                let (there, why) = (left r).0 m in
                elim (mem-append_one r s rows (subst (Memᴰ r) added there)) [
                  | inl old ↦ fresh r old
                  | inr same ↦ elim why [
                    | inl lt ↦ absurd (
                        let lt' : late < s.deletion_date =
                          subst (λ (x : Send). late < x.deletion_date) same lt in
                        ground arith)
                    | inr (t, deleted) ↦ rw deleted (and_false _)
                  ]
                ],
          )
        ],
      ),
    )
