-- ===== src/Tests/Plan.antt =====
-- Codes of plans at concrete texts.
use passwall_server.Base.{false, ◌≡◌, ◌&&◌}
use passwall_server.Plan.Code.{
  base_plan, is_personal_vault_plan, is_multi_user_plan, tier_meets_minimum, team,
}
use passwall_server.Plan.Families.{multi_user-meets-team, personal-multi_disjoint}

multi_user-meets-team_example :
    is_multi_user_plan "family-yearly" ≡ tier_meets_minimum (base_plan "family-yearly") team
multi_user-meets-team_example = multi_user-meets-team "family-yearly"

personal-multi_disjoint_example :
    (is_personal_vault_plan "pro-monthly" && is_multi_user_plan "pro-monthly") ≡ false
personal-multi_disjoint_example = personal-multi_disjoint "pro-monthly"
