-- ===== src/Tests/Policy.antt =====
-- Policies of one organization, on a table in memory.
use passwall_server.Base.{
  ℕ, Option, none, some, String, true, [], Gorm, IsGorm, memory, memory-IsGorm, Result, ok, refl,
}
use passwall_server.Membership.Record.{OrganizationUser, admin, confirmed}
use passwall_server.Policy.Record.{OrganizationPolicy, key, rekey}
use passwall_server.Policy.Service.{UpdateOrganizationPolicyRequest, update_policy}
use passwall_server.Policy.Dependencies.{IsSound}
use passwall_server.Policy.Soundness.{update_policy-IsSound}

abbrev db : Gorm OrganizationPolicy
db = memory key rekey

db-IsGorm : IsGorm key rekey db
db-IsGorm = memory-IsGorm key rekey (λ k r. refl)

abbrev members : ℕ → ℕ → Result OrganizationUser
members o u = ok (record {
  id = 1;
  uuid = "m";
  organization_id = o;
  user_id = u;
  role = admin;
  encrypted_org_key = "k";
  access_all = true;
  permissions = "";
  status = confirmed;
  invited_at = none;
  accepted_at = none;
  external_id = none;
})

abbrev plan_codes : ℕ → Result (Option String)
plan_codes o = ok (some "business-yearly")

abbrev turn_on : UpdateOrganizationPolicyRequest
turn_on = record { enabled = some true; policy_data = none }

empty-IsSound : IsSound []
empty-IsSound = record { keys = tt; prerequisites = λ p m. elim m [ ] }

update_policy-IsSound_example :
    IsSound (update_policy db members plan_codes "u" "now" 1 9 "single_organization" turn_on []).1
update_policy-IsSound_example =
    update_policy-IsSound db db-IsGorm members plan_codes "u" "now" 1 9 "single_organization"
      turn_on [] empty-IsSound
