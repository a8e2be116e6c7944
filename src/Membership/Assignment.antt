-- ===== src/Membership/Assignment.antt =====
-- Changing the role of a member (UpdateMemberRole of internal/service/organization_service.go).
use passwall_server.Base.{
  ℕ, Bool, true, false, not, ◌&&◌, ok, ◌≡◌, ap, ◌∙◌, subst, Memᴰ, arith, upsert, OnSuccess,
  on_success, lift_error_success, require_success, call_known_success, commit_error_success,
}
use passwall_server.Membership.Record.{OrganizationUser, key, eq_owner}
use passwall_server.Membership.Tables.{Store, Engines}
use passwall_server.Membership.Service.{
  UpdateOrgUserRoleRequest, with_role, is_supported_org_role, update_member_role,
}
use passwall_server.Membership.Statements.{
  IsReliable, with_members_ok, member_found, membership_found, Administered,
  check_permission-Administered,
}
use passwall_server.Membership.Removal.{negated}

-- What UpdateMemberRole does where it succeeds: an administrator of the organization asked for it,
-- an owner if the new role is owner; the membership with the identifier is not an owner's; it gets
-- the role, and no other membership changes.
pub record Assigned (o id u : ℕ) (req : UpdateOrgUserRoleRequest) (s s' : Store) : Type 0 where
  pub supported : is_supported_org_role req.role ≡ true
  pub administered : Administered o u s
  pub by_owner :
      eq_owner req.role ≡ true
      → (r : OrganizationUser) × Memᴰ r s.members
        × (r.organization_id ≡ o)
        × (r.user_id ≡ u)
        × (eq_owner r.role ≡ true)
  pub changed :
      (ou : OrganizationUser) × Memᴰ ou s.members
      × (ou.id ≡ id)
      × (eq_owner ou.role ≡ false)
      × (s' ≡ record s { members = upsert key (with_role req ou) s.members })

module _ (db : Engines) (reliable : IsReliable db) where
  assigned :
      (o id u : ℕ) (req : UpdateOrgUserRoleRequest) (s : Store)
      → OnSuccess (λ _ s'. Assigned o id u req s s') (update_member_role db o id u req s)
  unfolding update_member_role
  assigned o id u req s = require_success Q _ _ _ s λ sup.
      call_known_success Q (λ _ s'. (s' ≡ s) × Administered o u s) _ _
        (check_permission-Administered db reliable o u s)
        λ _ s0 (e0, adm). lift_error_success Q _ _ _ s0 λ (r : OrganizationUser) er.
          let (mr, ro, ru) = membership_found db reliable o u s0 r er in
          require_success Q _ _ _ s0 λ ow.
            lift_error_success Q _ _ _ s0 λ (ou : OrganizationUser) e.
              let (m, ei) = member_found db reliable id s0 ou e in
              require_success Q _ _ _ s0 λ eb. commit_error_success Q _ _ s0 λ s' h.
                let (rows, es, et) = with_members_ok s0 s' _ h in
                let saved = reliable.members.save_ok (with_role req ou) s0.members rows es in
                record {
                  supported = sup;
                  administered = adm;
                  by_owner = λ own. (
                    r,
                    subst (λ (z : Store). Memᴰ r z.members) e0 mr,
                    ro,
                    ru,
                    implied _ _ ow own,
                  );
                  changed = (
                    ou,
                    subst (λ (z : Store). Memᴰ ou z.members) e0 m,
                    ei,
                    negated _ eb,
                    et
                        ∙ ap (λ t. record s0 { members = t }) saved
                        ∙ ap
                            (λ (z : Store). record z {
                              members = upsert key (with_role req ou) z.members;
                            })
                            e0,
                  );
                }
    where
      Q : Unit {0} → Store → Type 0
      Q _ s' = Assigned o id u req s s'

      implied : (a b : Bool) → not (a && not b) ≡ true → a ≡ true → b ≡ true
      implied a b h k = ground arith

  -- Where UpdateMemberRole succeeds, the role is a supported one, an administrator of the
  -- organization asked for it (an owner, for the role of an owner), and the one change is the role,
  -- with access_all if it is given, of the membership with the identifier, which is not an owner's.
  pub update_member_role-Assigned :
      (o id u : ℕ) (req : UpdateOrgUserRoleRequest) (s s' : Store)
      → update_member_role db o id u req s ≡ (ok tt, s')
      → Assigned o id u req s s'
  update_member_role-Assigned o id u req s s' =
      on_success (λ _ t. Assigned o id u req s t) _ tt s' (assigned o id u req s)
