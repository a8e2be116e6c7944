-- ===== src/Organization/Origins.antt =====
-- Where the memberships of an organization come from, and how their status moves.
use passwall_server.Base.{
  into_ok, ℕ, ◌<◌, String, Bool, true, false, not, [], ◌∷◌, Error, Result, ok, err, ◌≡◌, refl, sym,
  ap, subst, ◌∙◌, ◌==◌, ◌&&◌, ◌⊎◌, inl, inr, Memᴰ, All, All-self, All-weaken, All-upsert,
  All-append, count_rows, ltb, ltb→lt, ==→eq, wrap, message, forbidden, into, map_outcome,
  require_step, lift_error_step, same_step, same_error_step, call_step, call_error_step,
  create_step, commit_step, drop_error, ok-injective, arith,
}
use passwall_server.Membership.Record.{
  OrganizationUser, key, rekey, invited, eq_owner, eq_invited, eq_provisioned,
}
use passwall_server.Membership.Tables.{update_member}
use passwall_server.Membership.Service.{check_permission}
use passwall_server.Membership.Statements.{Administered, with_members_ok}
use passwall_server.Organization.Tables.{Store, Engines, within, is_active_membership}
use passwall_server.Organization.Defaults.{
  ensure_default_team, ensure_default_collection, ensure_org_user_in_default_team,
}
use passwall_server.Organization.Invitations.{
  InviteUserToOrgRequest, Services, invitation, accepted_by, confirmed_with, stamped, get_max_users,
  invite_user, accept_invitation, confirm_provisioned_member, add_existing_member, add_found,
  ensure_defaults, find_membership, check_single_organization_policy,
}
use passwall_server.Organization.Lookups.{
  IsReliable, permission-same, permission-Administered, find_membership-same, find_membership_found,
  get_member-same, get_member_found, check_single-same,
}
use passwall_server.Organization.DefaultTeam.{
  SameMembers, ensure_default_team-SameMembers, ensure_default_collection-SameMembers,
  ensure_access-SameMembers, ensure_in_team-SameMembers,
}

-- The requests, each with the clock and the identifier that it draws where it reads them.
pub data Request : Type 0 where
  invites : ℕ → String → ℕ → ℕ → InviteUserToOrgRequest → Request
  accepts : ℕ → ℕ → ℕ → String → Request
  confirms : ℕ → ℕ → ℕ → String → Request
  adds : ℕ → OrganizationUser → Request

unfoldable pub serve : Engines → Services → Request → Store → Store
serve db ext (invites now uuid o u req) s = (invite_user db ext now uuid o u req s).1
serve db ext (accepts now id u k) s = (accept_invitation db ext now id u k s).1
serve db ext (confirms o id u k) s = (confirm_provisioned_member db ext o id u k s).1
serve db ext (adds now ou) s = (add_existing_member db ext now ou s).1

-- The members that count towards the limit.
abbrev pub active_members : ℕ → Store → ℕ
active_members o s =
    count_rows (λ x. (x.organization_id == o) && is_active_membership x.status)
      s.memberships.members

-- The inviter owns the organization.
abbrev pub Owns : ℕ → ℕ → Store → Type 0
Owns o u s =
    (m : OrganizationUser) × Memᴰ m s.memberships.members
    × (m.organization_id ≡ o)
    × (m.user_id ≡ u)
    × (eq_owner m.role ≡ true)

-- What a request may add or change, and what it rests on.
abbrev pub New : Engines → Services → Request → Store → OrganizationUser → Type 0
New db ext (invites now uuid o u req) s r =
    (r.organization_id ≡ o)
    × (r.role ≡ req.role)
    × (r.status ≡ invited)
    × Administered o u s.memberships
    × (eq_owner req.role ≡ true → Owns o u s)
    × (ext.is_personal o ≡ ok false)
    × ((limit : ℕ) × (get_max_users db ext o ≡ ok limit) × (active_members o s < limit))
New db ext (accepts now id u k) s r =
    (ou : OrganizationUser) × Memᴰ ou s.memberships.members
    × (ou.id ≡ id)
    × (ou.user_id ≡ u)
    × (eq_invited ou.status ≡ true)
    × (r ≡ accepted_by now k ou)
New db ext (confirms o id u k) s r =
    (ou : OrganizationUser) × Memᴰ ou s.memberships.members
    × (ou.id ≡ id)
    × (ou.organization_id ≡ o)
    × (eq_provisioned ou.status ≡ true)
    × Administered o u s.memberships
    × (r ≡ confirmed_with k ou)
New db ext (adds now given) s r =
    (ext.is_personal given.organization_id ≡ ok false)
    × (((ou : OrganizationUser) × Memᴰ ou s.memberships.members
          × (ou.organization_id ≡ given.organization_id)
          × (ou.user_id ≡ given.user_id)
          × (eq_invited ou.status ≡ true)
          × (r ≡ accepted_by now given.encrypted_org_key ou))
        ⊎ ((k : ℕ) × (r ≡ rekey k (stamped now given))))

abbrev Origin : Engines → Services → Request → Store → OrganizationUser → Type 0
Origin db ext req s r = Memᴰ r s.memberships.members ⊎ New db ext req s r

-- Every membership was there or is what the request may make.
abbrev pub Traced : Engines → Services → Request → Store → Store → Type 0
Traced db ext req s s' = All (Origin db ext req s) s'.memberships.members

dropped {κ} : {A : Type 0} (m : Result A × Store) (P : Store → Type κ) → P m.1 → P (drop_error m).1
unfolding drop_error
dropped (r, s) P h = h

mapped {κ} :
    {A : Type 0} (g : Error → Error) (m : Result A × Store) (P : Store → Type κ)
    → P m.1
    → P (map_outcome g m).1
unfolding map_outcome
mapped g (r, s) P h = h

flip_lem : (b : Bool) → not b ≡ true → b ≡ false
flip_lem b h = ground arith

module _ (db : Engines) (ext : Services) (reliable : IsReliable db) (req : Request)
    (s : Store) where
  start : Traced db ext req s s
  start =
      All-weaken (λ r. Memᴰ r s.memberships.members) (Origin db ext req s) s.memberships.members
        (λ r m. inl m) (All-self s.memberships.members)

  stays : (t t' : Store) → SameMembers t t' → Traced db ext req s t → Traced db ext req s t'
  stays t t' e h = subst (All (Origin db ext req s)) (sym e) h

  team_stays :
      (o u : ℕ) (t : Store)
      → Traced db ext req s t
      → Traced db ext req s (ensure_org_user_in_default_team db o u t).1
  team_stays o u t h =
      stays t (ensure_org_user_in_default_team db o u t).1 (ensure_in_team-SameMembers db o u t) h

  saved :
      (x : OrganizationUser)
      → (Origin db ext req s) x
      → Traced db ext req s (within (update_member db.memberships x) s).1
  unfolding within
  saved x o =
      commit_step (λ t. All (Origin db ext req s) t.members) _ s.memberships start
        λ t h.
          let (rows, er, es) = with_members_ok s.memberships t _ h in
          subst (All (Origin db ext req s))
            (sym (
              ap (λ z. z.members) es
              ∙ reliable.memberships.members.save_ok x s.memberships.members rows er))
            (All-upsert (Origin db ext req s) key x s.memberships.members o start)

  created :
      (x a : OrganizationUser) (t : Store)
      → ((k : ℕ) → (Origin db ext req s) (rekey k x))
      → into
          (λ m. record s { memberships = record s.memberships { members = m } })
          (db.memberships.members.create x s.memberships.members)
        ≡ ok (a, t)
      → Traced db ext req s t
  created x a t o h =
      let (rows, r, e) = into_ok _ _ a t h in
      let (row, added, other) =
        reliable.memberships.members.create_ok x s.memberships.members a rows r in
      subst (All (Origin db ext req s)) (sym (ap (λ z. z.memberships.members) e ∙ added)) (
        All-append (Origin db ext req s) s.memberships.members (a ∷ []) start
          (subst (Origin db ext req s) (sym row) (o (key a)), tt))

module _ (db : Engines) (ext : Services) where
  ensure_defaults-SameMembers : (o : ℕ) (t : Store) → SameMembers t (ensure_defaults db ext o t).1
  unfolding ensure_defaults
  ensure_defaults-SameMembers o t = dropped _ (SameMembers t) (
      call_step (SameMembers t) (ensure_default_team db o t) _
        (ensure_default_team-SameMembers db o t)
        λ team h.
          let t1 = (ensure_default_team db o t).1 in
          let e1 = ensure_default_team-SameMembers db o t in
          let e2 = ensure_default_collection-SameMembers db o t1 ∙ e1 in
          call_step (SameMembers t) (ensure_default_collection db o t1) _ e2 λ c k.
            ensure_access-SameMembers db c.id team.id (ensure_default_collection db o t1).1 ∙ e2)

module _ (db : Engines) (ext : Services) (reliable : IsReliable db) where
  accept-Traced :
      (now id u : ℕ) (k : String) (s : Store)
      → Traced db ext (accepts now id u k) s (accept_invitation db ext now id u k s).1
  unfolding accept_invitation
  accept-Traced now id u k s =
      let P = Traced db ext (accepts now id u k) s in
      let h0 = start db ext reliable (accepts now id u k) s in
      require_step P _ (message "encrypted_org_key is required") _ s h0 λ _.
        same_error_step P (wrap "invitation not found") _ _ s (get_member-same db reliable ext id s)
          h0
          λ (ou : OrganizationUser) e.
            let (m, ei) = get_member_found db reliable ext id s ou e in
            require_step P (ou.user_id == u) forbidden _ s h0 λ mine.
              require_step P (eq_invited ou.status) (message "invitation already processed") _ s h0
                λ pending.
                  same_step P (check_single_organization_policy db ext ou.organization_id u s) _ s
                    (check_single-same db reliable ext ou.organization_id u s) h0
                    λ _ _.
                      let done =
                        saved db ext reliable (accepts now id u k) s (accepted_by now k ou)
                          (inr (ou, m, ei, ==→eq _ _ mine, pending, refl)) in
                      let s1 = (within (update_member db.memberships (accepted_by now k ou)) s).1 in
                      call_error_step P (wrap "failed to accept invitation")
                        (within (update_member db.memberships (accepted_by now k ou)) s) _ done
                        λ _ _.
                          call_error_step P (wrap "failed to ensure default team membership")
                            (ensure_org_user_in_default_team db ou.organization_id ou.id s1) _
                            (team_stays db ext reliable (accepts now id u k) s ou.organization_id
                              ou.id s1 done)
                            λ tu _.
                              team_stays db ext reliable (accepts now id u k) s ou.organization_id
                                ou.id s1 done

  confirm-Traced :
      (o id u : ℕ) (k : String) (s : Store)
      → Traced db ext (confirms o id u k) s (confirm_provisioned_member db ext o id u k s).1
  unfolding confirm_provisioned_member
  confirm-Traced o id u k s =
      let req = confirms o id u k in
      let P = Traced db ext req s in
      let h0 = start db ext reliable req s in
      require_step P _ (message "encrypted_org_key is required") _ s h0 λ _.
        same_step P (within (check_permission db.memberships o u true) s) _ s
          (permission-same db reliable ext o u s) h0
          λ a ea.
            same_error_step P (wrap "member not found") _ _ s (get_member-same db reliable ext id s)
              h0
              λ (ou : OrganizationUser) e.
                let (m, ei) = get_member_found db reliable ext id s ou e in
                require_step P (ou.organization_id == o) forbidden _ s h0 λ here.
                  require_step P (eq_provisioned ou.status)
                    (message "member is not in provisioned status") _ s h0
                    λ waiting.
                      let done = saved db ext reliable req s (confirmed_with k ou) (
                        inr (
                          ou,
                          m,
                          ei,
                          ==→eq _ _ here,
                          waiting,
                          permission-Administered db reliable ext o u s a ea,
                          refl,
                        )) in
                      let s1 = (within (update_member db.memberships (confirmed_with k ou)) s).1 in
                      let s2 = team_stays db ext reliable req s o ou.id s1 done in
                      call_error_step P (wrap "failed to confirm provisioned member")
                        (within (update_member db.memberships (confirmed_with k ou)) s) _ done
                        λ _ _.
                          call_error_step P (wrap "failed to ensure default team membership")
                            (ensure_org_user_in_default_team db o ou.id s1) _ s2 λ tu _. s2

  add_found-Traced :
      (now : ℕ) (given : OrganizationUser) (s : Store) (r : Result OrganizationUser)
      → (find_membership db ext given.organization_id given.user_id s).0 ≡ r
      → ext.is_personal given.organization_id ≡ ok false
      → Traced db ext (adds now given) s (add_found db ext now given r s).1
  unfolding add_found
  add_found-Traced now given s (ok ou) h shared =
      let req = adds now given in
      let h0 = start db ext reliable req s in
      let (m, eo, eu) =
        find_membership_found db reliable ext given.organization_id given.user_id s ou h in
      require_step (Traced db ext req s) (eq_invited ou.status)
        (message "user is already a member of this organization") _ s h0
        λ pending. mapped (wrap "failed to accept existing invitation") _ (Traced db ext req s) (
          saved db ext reliable req s (accepted_by now given.encrypted_org_key ou)
            (inr (shared, inl (ou, m, eo, eu, pending, refl))))
  add_found-Traced now given s (err e) h shared =
      let req = adds now given in
      let P = Traced db ext req s in
      let h0 = start db ext reliable req s in
      create_step P (wrap "failed to add member") _ _ s h0
        λ (a : OrganizationUser) (t : Store) made.
          let done =
            created db ext reliable req s (stamped now given) a t (λ k. inr (shared, inr (k, refl)))
              made in
          let kept = team_stays db ext reliable req s a.organization_id a.id t done in
          call_error_step P (wrap "failed to ensure default team membership")
            (ensure_org_user_in_default_team db a.organization_id a.id t) _ kept λ tu _. kept

  add-Traced :
      (now : ℕ) (given : OrganizationUser) (s : Store)
      → Traced db ext (adds now given) s (add_existing_member db ext now given s).1
  unfolding add_existing_member
  add-Traced now given s =
      let req = adds now given in
      let P = Traced db ext req s in
      let h0 = start db ext reliable req s in
      require_step P _ (message "encrypted_org_key is required") _ s h0 λ _.
        lift_error_step P (wrap "organization not found") (ext.is_personal given.organization_id) _
          s h0
          λ b eb.
            require_step P (not b) (message "cannot add members to a personal vault") _ s h0
              λ shared.
                call_step P (ok (find_membership db ext given.organization_id given.user_id s).0, s)
                  _ h0
                  λ r er.
                    add_found-Traced now given s r (ok-injective er)
                      (eb ∙ ap ok (flip_lem b shared))

  owner_lem : (a b : Bool) → not (a && not b) ≡ true → a ≡ true → b ≡ true
  owner_lem a b h k = ground arith

  invite-Traced :
      (now : ℕ) (uuid : String) (o u : ℕ) (r : InviteUserToOrgRequest) (s : Store)
      → Traced db ext (invites now uuid o u r) s (invite_user db ext now uuid o u r s).1
  unfolding invite_user
  invite-Traced now uuid o u r s =
      let req = invites now uuid o u r in
      let P = Traced db ext req s in
      let h0 = start db ext reliable req s in
      require_step P _ (message "invalid organization role") _ s h0 λ _.
        lift_error_step P (wrap "organization not found") (ext.is_personal o) _ s h0 λ b eb.
          require_step P (not b) (message "cannot invite members to a personal vault") _ s h0
            λ shared.
              same_step P (within (check_permission db.memberships o u true) s) _ s
                (permission-same db reliable ext o u s) h0
                λ a ea.
                  same_error_step P (λ _. forbidden) _ _ s
                    (find_membership-same db reliable ext o u s) h0
                    λ (inviter : OrganizationUser) ei.
                      let (mi, eo, eu) = find_membership_found db reliable ext o u s inviter ei in
                      require_step P (not (eq_owner r.role && not (eq_owner inviter.role)))
                        forbidden _ s h0
                        λ own.
                          lift_error_step P (wrap "failed to get member count") _ _ s h0
                            λ (n : ℕ) en.
                              lift_error_step P (wrap "failed to get plan limits")
                                (get_max_users db ext o) _ s h0
                                λ (limit : ℕ) el.
                                  require_step P (ltb n limit)
                                    (message "organization has reached max users limit") _ s h0
                                    λ room.
                                      lift_error_step P _ (ext.user_by_email r.email) _ s h0
                                        λ (invitee : ℕ) _. call_step P _ _ h0 λ known _.
                                          require_step P (not known)
                                            (message
                                              "user is already a member of this organization")
                                            _ s h0
                                            λ _.
                                              same_step P
                                                (check_single_organization_policy db ext o invitee
                                                  s)
                                                _ s (check_single-same db reliable ext o invitee s)
                                                h0
                                                λ _ _.
                                                  lift_error_step P
                                                    (wrap "failed to get inviter info")
                                                    (ext.user_name u) _ s h0
                                                    λ name _.
                                                      lift_error_step P
                                                        (wrap "failed to create invitation")
                                                        (ext.create_invitation r u name) _ s h0
                                                        λ _ _.
                                                          create_step P
                                                            (wrap "failed to invite user") _ _ s h0
                                                            λ (x : OrganizationUser) (t : Store)
                                                            made.
                                                            let counted =
                                                            reliable.memberships.members.count_ok _
                                                            s.memberships.members n en in
                                                            let done =
                                                            created db ext reliable req s
                                                            (invitation now uuid o invitee r) x t
                                                            (λ k. inr (
                                                            refl,
                                                            refl,
                                                            refl,
                                                            permission-Administered db reliable ext
                                                            o u s a ea,
                                                            (λ e. (
                                                            inviter,
                                                            mi,
                                                            eo,
                                                            eu,
                                                            owner_lem _ _ own e,
                                                            )),
                                                            eb ∙ ap ok (flip_lem b shared),
                                                            (
                                                            limit,
                                                            el,
                                                            subst (λ c. c < limit) counted
                                                            (ltb→lt n limit room),
                                                            ),
                                                            ))
                                                            made in
                                                            let t1 =
                                                            (ensure_org_user_in_default_team db o
                                                            x.id t).1 in
                                                            let kept =
                                                            team_stays db ext reliable req s o x.id
                                                            t done in
                                                            call_error_step P
                                                            (wrap
                                                            "failed to ensure default team membership")
                                                            (ensure_org_user_in_default_team db o
                                                            x.id t)
                                                            _ kept
                                                            λ tu _.
                                                            let last =
                                                            stays db ext reliable req s t1
                                                            (ensure_defaults db ext o t1).1
                                                            (ensure_defaults-SameMembers db ext o
                                                            t1)
                                                            kept in
                                                            call_step P
                                                            (ensure_defaults db ext o t1) _ last
                                                            λ _ _. last

-- After an invitation, an acceptance, a confirmation or an addition, whatever it answers and
-- whatever fails, every membership was there before, or is: an invitation with the role that was
-- asked for, by an administrator, and by an owner if the role is that, to an organization that is
-- no personal vault and has fewer active members than its limit; a pending invitation that its own
-- user accepts; a provisioned membership that an administrator of its organization confirms; or,
-- not to a personal vault, a membership that is added as it was given, or a pending invitation of
-- the same user that is accepted instead, with its own role.
pub serve-Traced :
    (db : Engines) (ext : Services) (req : Request) (s : Store)
    → IsReliable db
    → Traced db ext req s (serve db ext req s)
unfolding serve
serve-Traced db ext (invites now uuid o u r) s reliable =
    invite-Traced db ext reliable now uuid o u r s
serve-Traced db ext (accepts now id u k) s reliable = accept-Traced db ext reliable now id u k s
serve-Traced db ext (confirms o id u k) s reliable = confirm-Traced db ext reliable o id u k s
serve-Traced db ext (adds now given) s reliable = add-Traced db ext reliable now given s
