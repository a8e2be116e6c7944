-- ===== src/Membership/Owners.antt =====
-- The owners of organizations under UpdateMemberRole, RemoveMember and DeclineInvitationForUser
-- (internal/service/organization_service.go).
use passwall_server.Base.{
  ℕ, Option, none, some, Bool, true, false, not, List, ◌==◌, ◌&&◌, Result, ok, err, map_error,
  translate, eq_not_found, ◌≡◌, ◌≢◌, refl, sym, ap, ◌∙◌, subst, inl, inr, Memᴰ, keep, keep_complete,
  Bool-cases, upsert-mem, Distinct-upsert, Distinct-keep, Distinct, Distinct-eq, lift_error_step,
  require_step, same_step, call_step, commit_error_step,
}
use passwall_server.Membership.Record.{OrganizationUser, key, eq_owner, eq_invited}
use passwall_server.Membership.Tables.{Store, Engines}
use passwall_server.Membership.Service.{
  UpdateOrgUserRoleRequest, with_role, update_member_role, remove_member, delete_team_users,
  delete_collection_users, decline_found, decline_invitation_for_user,
}
use passwall_server.Membership.Statements.{
  IsReliable, with_members_ok, member_found, membership_found, check_permission-same,
  delete_team_users-members, delete_collection_users-members,
}
use passwall_server.Membership.Removal.{negated, differ}

pub data Change : Type 0 where
  changes_role : ℕ → ℕ → ℕ → UpdateOrgUserRoleRequest → Change
  removes : ℕ → ℕ → ℕ → Change
  declines : ℕ → ℕ → Change

unfoldable pub serve : Engines → Change → Store → Store
serve db (changes_role o id u req) s = (update_member_role db o id u req s).1
serve db (removes o id u) s = (remove_member db o id u s).1
serve db (declines o u) s = (decline_invitation_for_user db o u s).1

-- Keys stay distinct, and the membership of each owner past the invitation stays as it is.
pub record Steady (s s' : Store) : Type 0 where
  pub keys : Distinct key s'.members
  pub owners :
      (x : OrganizationUser)
      → Memᴰ x s.members
      → eq_owner x.role ≡ true
      → eq_invited x.status ≡ false
      → Memᴰ x s'.members

with_role-id :
    (req : UpdateOrgUserRoleRequest) (ou : OrganizationUser) → (with_role req ou).id ≡ ou.id
with_role-id req ou = go req.access_all
  where
    go :
        (b : Option Bool)
        → (elim b as (λ _. OrganizationUser) [
          | none ↦ record ou { role = req.role }
          | some b ↦ record ou { role = req.role; access_all = b }
        ]).id
          ≡ ou.id
    go none = refl
    go (some b) = refl

-- Two memberships that a test tells apart have different keys.
told_apart :
    (rows : List OrganizationUser) (test : OrganizationUser → Bool) (x y : OrganizationUser)
    → Distinct key rows
    → Memᴰ x rows
    → Memᴰ y rows
    → test x ≡ true
    → test y ≡ false
    → x.id ≢ y.id
told_apart rows test x y d mx my tx ty e =
    cc (sym tx ∙ ap test (Distinct-eq key rows d x y mx my e) ∙ ty)

module _ (db : Engines) (reliable : IsReliable db) where
  unchanged : (s : Store) → Distinct key s.members → Steady s s
  unchanged s d = record { keys = d; owners = λ x m _ _. m }

  moved : (s s' : Store) → s'.members ≡ s.members → Distinct key s.members → Steady s s'
  moved s s' e d = record {
    keys = subst (Distinct key) (sym e) d;
    owners = λ x m _ _. subst (Memᴰ x) (sym e) m;
  }

  deleted :
      (s s1 : Store) (ou : OrganizationUser) (id : ℕ)
      → Distinct key s.members
      → s1.members ≡ s.members
      → Memᴰ ou s.members
      → ou.id ≡ id
      → ((x : OrganizationUser)
          → Memᴰ x s.members
          → eq_owner x.role ≡ true
          → eq_invited x.status ≡ false
          → x.id ≢ ou.id)
      → (rows : List OrganizationUser) → db.members.delete id s1.members ≡ ok rows
      → Steady s (record s1 { members = rows })
  deleted s s1 ou id d e m ei away rows er =
      let gone : rows ≡ keep (λ z. not (z.id == id)) s.members =
        reliable.members.delete_ok id s1.members rows er ∙ ap (keep (λ z. not (z.id == id))) e in
      record {
        keys = rw gone (Distinct-keep key (λ z. not (z.id == id)) s.members d);
        owners = λ x mx ow past. rw gone (
            keep_complete (λ z. not (z.id == id)) s.members x mx
              (differ x.id id (λ k. away x mx ow past (k ∙ sym ei))));
      }

  change_role-Steady :
      (o id u : ℕ) (req : UpdateOrgUserRoleRequest) (s : Store)
      → Distinct key s.members
      → Steady s (update_member_role db o id u req s).1
  unfolding update_member_role
  change_role-Steady o id u req s d =
      let same = unchanged s d in
      require_step (Steady s) _ _ _ s same λ _.
        same_step (Steady s) _ _ s (check_permission-same db reliable o u true s) same λ _ _.
          lift_error_step (Steady s) _ _ _ s same λ (_ : OrganizationUser) _.
            require_step (Steady s) _ _ _ s same λ _.
              lift_error_step (Steady s) _ _ _ s same λ (ou : OrganizationUser) e.
                let (m, _) = member_found db reliable id s ou e in
                require_step (Steady s) _ _ _ s same λ eb.
                  commit_error_step (Steady s) _ _ s same λ s' h.
                    let (rows, er, es) = with_members_ok s s' _ h in
                    let saved = reliable.members.save_ok (with_role req ou) s.members rows er in
                    rw es (record {
                      keys = rw saved (Distinct-upsert key (with_role req ou) s.members d);
                      owners = λ x mx ow _. rw saved (
                          upsert-mem key (with_role req ou) x s.members mx (λ k.
                            told_apart s.members (λ z. eq_owner z.role) x ou d mx m ow
                              (negated _ eb) (k ∙ with_role-id req ou)));
                    })

  remove-Steady :
      (o id u : ℕ) (s : Store) → Distinct key s.members → Steady s (remove_member db o id u s).1
  unfolding remove_member
  remove-Steady o id u s d =
      let same = unchanged s d in
      same_step (Steady s) _ _ s (check_permission-same db reliable o u true s) same λ _ _.
        lift_error_step (Steady s) _ _ _ s same λ (ou : OrganizationUser) e.
          let (m, ei) = member_found db reliable id s ou e in
          require_step (Steady s) _ _ _ s same λ _. require_step (Steady s) _ _ _ s same λ eb.
            lift_error_step (Steady s) _ _ _ s same λ ts _.
              let e1 = delete_team_users-members db reliable ts s in
              let s1 = (delete_team_users db ts s).1 in
              call_step (Steady s) _ _ (moved s s1 e1 d) λ _ _.
                lift_error_step (Steady s) _ _ _ s1 (moved s s1 e1 d) λ cs _.
                  let e2 = delete_collection_users-members db reliable cs s1 ∙ e1 in
                  let s2 = (delete_collection_users db cs s1).1 in
                  call_step (Steady s) _ _ (moved s s2 e2 d) λ _ _.
                    commit_error_step (Steady s) _ _ s2 (moved s s2 e2 d) λ s3 h.
                      let (rows, er, es) = with_members_ok s2 s3 _ h in
                      rw es (
                        deleted s s2 ou id d e2 m ei
                          (λ x mx ow _.
                            told_apart s.members (λ z. eq_owner z.role) x ou d mx m ow
                              (negated _ eb))
                          rows er)

  decline_found-Steady :
      (o u : ℕ) (s : Store) (r : Result OrganizationUser)
      → map_error translate
          (db.members.first (λ x. (x.organization_id == o) && (x.user_id == u)) s.members)
        ≡ r
      → Distinct key s.members
      → Steady s (decline_found db r s).1
  unfolding decline_found
  decline_found-Steady o u s (err x) e d = elim (Bool-cases (eq_not_found x)) [
    | inl t ↦ rw t (unchanged s d)
    | inr f ↦ rw f (unchanged s d)
  ]
  decline_found-Steady o u s (ok ou) e d =
      let same = unchanged s d in
      let (m, _, _) = membership_found db reliable o u s ou e in
      require_step (Steady s) _ _ _ s same λ ei. commit_error_step (Steady s) _ _ s same λ s' h.
        let (rows, er, es) = with_members_ok s s' _ h in
        rw es (
          deleted s s ou ou.id d refl m refl
            (λ x mx _ past.
              told_apart s.members (λ z. not (eq_invited z.status)) x ou d mx m (ap not past)
                (ap not ei))
            rows er)

  -- Where keys are distinct, changing a role, removing a member and declining an invitation keep
  -- them distinct and leave the membership of every owner past the invitation in the table as it
  -- is, whatever they answer and whatever fails.
  pub serve-Steady :
      (change : Change) (s : Store) → Distinct key s.members → Steady s (serve db change s)
  unfolding serve decline_invitation_for_user
  serve-Steady (changes_role o id u req) s d = change_role-Steady o id u req s d
  serve-Steady (removes o id u) s d = remove-Steady o id u s d
  serve-Steady (declines o u) s d = decline_found-Steady o u s _ refl d
