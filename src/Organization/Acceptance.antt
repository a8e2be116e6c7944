-- ===== src/Organization/Acceptance.antt =====
-- An invitation that is accepted.
use passwall_server.Base.{
  ℕ, String, true, M, Result, ok, err, ◌≡◌, sym, ap, subst, ◌∙◌, ◌==◌, Memᴰ, upsert-mem_self,
  OnSuccess, on_success, success_from, success_both, call_error_success, call_success,
  require_success, commit_success, wrap, message, forbidden, ==→eq,
}
use passwall_server.Membership.Record.{OrganizationUser, key, eq_invited}
use passwall_server.Membership.Tables.{update_member, get_member}
use passwall_server.Membership.Tables
use passwall_server.Membership.Statements.{with_members_ok}
use passwall_server.Organization.Tables.{Store, Engines, within}
use passwall_server.Organization.Defaults.{ensure_org_user_in_default_team}
use passwall_server.Organization.Invitations.{
  Services, accepted_by, accept_invitation, check_single_organization_policy,
}
use passwall_server.Organization.Lookups.{IsReliable, get_member_found}
use passwall_server.Organization.DefaultTeam.{
  SameMembers, InDefaultTeam, ensure_in_team-SameMembers, ensure_in_team-InDefaultTeam,
}

-- The invitation of the number was pending and of the user; it is accepted now, and its member is
-- in the default team of the organization.
abbrev pub Joined : ℕ → ℕ → ℕ → String → Store → Store → Type 0
Joined now id u k s s' =
    (ou : OrganizationUser) × Memᴰ ou s.memberships.members
    × (ou.id ≡ id)
    × (ou.user_id ≡ u)
    × (eq_invited ou.status ≡ true)
    × Memᴰ (accepted_by now k ou) s'.memberships.members
    × InDefaultTeam ou.organization_id ou.id s'

within_success {κ} :
    {A : Type 0} (Q : A → Store → Type κ) (m : M Tables.Store A) (s : Store)
    → OnSuccess (λ a t. Q a (record s { memberships = t })) (m s.memberships)
    → OnSuccess Q (within m s)
unfolding within
within_success {A = A} Q m s h = go (m s.memberships) h
  where
    go :
        (o : Result A × Tables.Store)
        → OnSuccess (λ a t. Q a (record s { memberships = t })) o
        → OnSuccess Q (o.0, record s { memberships = o.1 })
    go (ok a, t) q = q
    go (err e, t) q = tt

module _ (db : Engines) (ext : Services) (reliable : IsReliable db) where
  update_success :
      (x : OrganizationUser) (s : Store)
      → OnSuccess
          (λ a s'. Memᴰ x s'.memberships.members)
          (within (update_member db.memberships x) s)
  update_success x s = within_success _ (update_member db.memberships x) s (
      commit_success _ _ s.memberships λ t h.
        let (rows, er, es) = with_members_ok s.memberships t _ h in
        subst (Memᴰ x)
          (sym (
            ap (λ z. z.members) es
            ∙ reliable.memberships.members.save_ok x s.memberships.members rows er))
          (upsert-mem_self key x s.memberships.members))

  accept_success :
      (now id u : ℕ) (k : String) (s : Store)
      → OnSuccess (λ a s'. Joined now id u k s s') (accept_invitation db ext now id u k s)
  unfolding accept_invitation
  accept_success now id u k s =
      require_success _ _ (message "encrypted_org_key is required") _ s λ _.
        call_error_success _
          (λ (ou : OrganizationUser) t. Memᴰ ou s.memberships.members × (ou.id ≡ id))
          (wrap "invitation not found") (within (get_member db.memberships id) s) _
          (success_from _ (within (get_member db.memberships id) s)
            (get_member_found db reliable ext id s))
          λ ou t g. require_success _ (ou.user_id == u) forbidden _ t λ mine.
            require_success _ (eq_invited ou.status) (message "invitation already processed") _ t
              λ pending.
                call_success _ (check_single_organization_policy db ext ou.organization_id u t) _
                  λ _ t1 _.
                    call_error_success _
                      (λ a s1. Memᴰ (accepted_by now k ou) s1.memberships.members)
                      (wrap "failed to accept invitation")
                      (within (update_member db.memberships (accepted_by now k ou)) t1) _
                      (update_success (accepted_by now k ou) t1)
                      λ _ s1 here.
                        call_error_success _
                          (λ tu s2. InDefaultTeam ou.organization_id ou.id s2 × SameMembers s1 s2)
                          (wrap "failed to ensure default team membership")
                          (ensure_org_user_in_default_team db ou.organization_id ou.id s1) _
                          (success_both _ (SameMembers s1)
                            (ensure_org_user_in_default_team db ou.organization_id ou.id s1)
                            (ensure_in_team-InDefaultTeam db reliable ou.organization_id ou.id s1)
                            (ensure_in_team-SameMembers db ou.organization_id ou.id s1))
                          λ tu s2 q. (
                            ou,
                            g.0,
                            g.1,
                            ==→eq _ _ mine,
                            pending,
                            subst (Memᴰ _) (sym q.1) here,
                            q.0,
                          )

-- An acceptance that succeeds found a pending invitation of the number and of the user; it is
-- accepted afterwards, and its member is in the default team of the organization, found or made.
pub accept_invitation-Joined :
    (db : Engines) (ext : Services) (now id u : ℕ) (k : String) (s s' : Store)
    → IsReliable db
    → accept_invitation db ext now id u k s ≡ (ok tt, s')
    → Joined now id u k s s'
accept_invitation-Joined db ext now id u k s s' reliable h =
    on_success (λ a. Joined now id u k s) (accept_invitation db ext now id u k s) tt s'
      (accept_success db ext reliable now id u k s) h
