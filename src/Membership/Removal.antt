-- ===== src/Membership/Removal.antt =====
-- Removing a member (RemoveMember of internal/service/organization_service.go).
use passwall_server.Base.{
  ℕ, Bool, true, false, not, ◌==◌, ok, ◌≡◌, ◌≢◌, refl, sym, ap, ◌∙◌, subst, ◌⊎◌, inl, inr, Memᴰ,
  keep_sound, keep_complete, ==→eq, arith, Bool-cases, Distinct, Distinct-eq, OnSuccess, on_success,
  lift_error_step, require_step, same_step, call_step, commit_error_step, lift_error_success,
  require_success, call_known_success, commit_error_success, eq→==,
}
use passwall_server.Membership.Record.{OrganizationUser, key, eq_owner}
use passwall_server.Membership.Tables.{TeamUser, CollectionUser, Store, Engines}
use passwall_server.Membership.Service.{remove_member, delete_team_users, delete_collection_users}
use passwall_server.Membership.Statements.{
  IsReliable, with_members_ok, member_found, check_permission-same, Administered,
  check_permission-Administered, delete_team_users-members, delete_collection_users-members,
  TeamsLeft, delete_team_users-Left, CollectionsLeft, delete_collection_users-Left,
}

-- After a removal: the caller administers the organization, the member with the identifier was one
-- of it and not its owner, nobody else's membership is new, and nothing of the member is left.
pub record Removed (o id u : ℕ) (s s' : Store) : Type 0 where
  pub administered : Administered o u s
  pub removed :
      (ou : OrganizationUser) × Memᴰ ou s.members
      × (ou.id ≡ id)
      × (ou.organization_id ≡ o)
      × (eq_owner ou.role ≡ false)
  pub members : (x : OrganizationUser) → Memᴰ x s'.members → Memᴰ x s.members × (x.id ≢ id)
  pub team_users : (t : TeamUser) → Memᴰ t s'.team_users → t.organization_user_id ≢ id
  pub collection_users :
      (c : CollectionUser) → Memᴰ c s'.collection_users → c.organization_user_id ≢ id

-- A membership that RemoveMember must leave alone: an owner's, or one of another organization.
abbrev pub Protected : ℕ → OrganizationUser → Type 0
Protected o x = (eq_owner x.role ≡ true) ⊎ (x.organization_id ≢ o)

-- Each protected membership is in the second store.
abbrev pub Spared : ℕ → Store → Store → Type 0
Spared o s s' = (x : OrganizationUser) → Memᴰ x s.members → Protected o x → Memᴰ x s'.members

pub differ : (a k : ℕ) → a ≢ k → not (a == k) ≡ true
differ a k h = elim (Bool-cases (a == k)) [ inl e ↦ absurd (h (==→eq a k e)) | inr e ↦ rw e refl ]

same_id : (a k : ℕ) → not (a == k) ≡ true → a ≢ k
same_id a k h e = ground arith

pub negated : (b : Bool) → not b ≡ true → b ≡ false
negated b h = ground arith

module _ (db : Engines) (reliable : IsReliable db) where
  remove_member-Spared :
      (o id u : ℕ) (s : Store) → Distinct key s.members → Spared o s (remove_member db o id u s).1
  unfolding remove_member
  remove_member-Spared o id u s d =
      let same : Spared o s s = λ x m _. m in
      same_step (Spared o s) _ _ s (check_permission-same db reliable o u true s) same λ _ _.
        lift_error_step (Spared o s) _ _ _ s same λ (ou : OrganizationUser) e.
          let (m, ei) = member_found db reliable id s ou e in
          require_step (Spared o s) _ _ _ s same λ eo. require_step (Spared o s) _ _ _ s same λ eb.
            lift_error_step (Spared o s) _ _ _ s same λ ts _.
              let (k1, e1) =
                kept s (delete_team_users db ts s).1 (delete_team_users-members db reliable ts s) in
              call_step (Spared o s) _ _ k1 λ _ _. lift_error_step (Spared o s) _ _ _ _ k1 λ cs _.
                let e2 =
                  delete_collection_users-members db reliable cs (delete_team_users db ts s).1
                  ∙ e1 in
                let (k2, _) =
                  kept s (delete_collection_users db cs (delete_team_users db ts s).1).1 e2 in
                call_step (Spared o s) _ _ k2 λ _ _.
                  commit_error_step (Spared o s) _ _ _ k2 λ s' h x mx p.
                    let (rows, er, es) = with_members_ok _ s' _ h in
                    let ne : x.id ≢ id = λ k.
                      other ou x (==→eq _ _ eo) (negated _ eb) p
                        (Distinct-eq key s.members d x ou mx m (k ∙ sym ei)) in
                    subst (Memᴰ x)
                      (sym (
                        ap (λ (z : Store). z.members) es ∙ reliable.members.delete_ok id _ rows er))
                      (keep_complete (λ z. not (z.id == id)) _ x (subst (Memᴰ x) (sym e2) mx)
                        (differ x.id id ne))
    where
      kept : (s s' : Store) → s'.members ≡ s.members → Spared o s s' × (s'.members ≡ s.members)
      kept s s' e = ((λ x m _. subst (Memᴰ x) (sym e) m), e)

      other :
          (ou x : OrganizationUser)
          → ou.organization_id ≡ o
          → eq_owner ou.role ≡ false
          → Protected o x
          → x ≢ ou
      other ou x eo eb (inl own) e =
          cc (sym own ∙ ap (λ (z : OrganizationUser). eq_owner z.role) e ∙ eb)
      other ou x eo eb (inr ne) e = ne (ap (λ (z : OrganizationUser). z.organization_id) e ∙ eo)

  removal :
      (o id u : ℕ) (s : Store) → OnSuccess (λ _ s'. Removed o id u s s') (remove_member db o id u s)
  unfolding remove_member
  removal o id u s =
      call_known_success Q (λ _ s'. (s' ≡ s) × Administered o u s) _ _
        (check_permission-Administered db reliable o u s)
        λ _ s0 (e0, adm). lift_error_success Q _ _ _ s0 λ (ou : OrganizationUser) e.
          let (m, ei) = member_found db reliable id s0 ou e in
          require_success Q _ _ _ s0 λ eo. require_success Q _ _ _ s0 λ eb.
            lift_error_success Q _ _ _ s0 λ ts et.
              call_known_success Q (λ _ s1. TeamsLeft ts s0 s1) _ _
                (delete_team_users-Left db reliable ts s0)
                λ _ s1 (em1, ec1, left1). lift_error_success Q _ _ _ s1 λ cs ecs.
                  call_known_success Q (λ _ s2. CollectionsLeft cs s1 s2) _ _
                    (delete_collection_users-Left db reliable cs s1)
                    λ _ s2 (em2, et2, left2). commit_error_success Q _ _ s2 λ s3 h.
                      let (rows, er, es) = with_members_ok s2 s3 _ h in
                      let gone = reliable.members.delete_ok id s2.members rows er in
                      record {
                        administered = adm;
                        removed = (
                          ou,
                          (subst (λ (z : Store). Memᴰ ou z.members) e0 m),
                          ei,
                          ==→eq _ _ eo,
                          negated _ eb,
                        );
                        members = λ x mx.
                            let (m2, ne) =
                              keep_sound _ s2.members x
                                (subst (Memᴰ x) (ap (λ (z : Store). z.members) es ∙ gone) mx) in
                            (
                              subst (Memᴰ x) (em2 ∙ em1 ∙ ap (λ (z : Store). z.members) e0) m2,
                              same_id x.id id ne,
                            );
                        team_users = λ t mt k.
                            let (m0, others) =
                              left1 t
                                (subst (Memᴰ t) (ap (λ (z : Store). z.team_users) es ∙ et2) mt) in
                            others t
                              (reliable.team_users.find_complete _ s0.team_users ts et t m0
                                (eq→== _ _ k))
                              refl;
                        collection_users = λ c mc k.
                            let (m1, others) =
                              left2 c
                                (subst (Memᴰ c) (ap (λ (z : Store). z.collection_users) es) mc) in
                            others c
                              (reliable.collection_users.find_complete _ s1.collection_users cs ecs
                                c m1 (eq→== _ _ k))
                              refl;
                      }
    where
      Q : Unit {0} → Store → Type 0
      Q _ s' = Removed o id u s s'

  -- A removal that RemoveMember reports as done was asked for by an administrator of the
  -- organization, concerned a member of it that is not an owner, and left no membership with the
  -- identifier and no team or collection membership of it.
  pub remove_member-Removed :
      (o id u : ℕ) (s s' : Store) → remove_member db o id u s ≡ (ok tt, s') → Removed o id u s s'
  remove_member-Removed o id u s s' =
      on_success (λ _ t. Removed o id u s t) _ tt s' (removal o id u s)

  -- RemoveMember, whatever it answers and whatever fails, leaves the membership of every owner and
  -- of every other organization in the table, where keys are distinct.
  pub remove_member_spares :
      (o id u : ℕ) (s : Store) (x : OrganizationUser)
      → Distinct key s.members
      → Memᴰ x s.members
      → Protected o x
      → Memᴰ x (remove_member db o id u s).1.members
  remove_member_spares o id u s x d = remove_member-Spared o id u s d x
