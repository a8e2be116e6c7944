-- ===== src/Plan/Families.antt =====
-- How plan codes, families and tiers relate.
use passwall_server.Base.{String, false, str_eq, ◌&&◌, leb, ◌≡◌, refl, eq_iff, inl, inr, Bool-cases}
use passwall_server.Plan.Code.{
  base_plan, is_personal_vault_plan, is_multi_user_plan, plan_rank, personal_family,
  multi_user_family, tier_meets_minimum, team,
}

-- A text is one of the families that the code names, or compares unequal to each of them.
families {ℓ} :
    (P : String → Type ℓ)
    → P "free"
    → P "pro"
    → P "family"
    → P "team"
    → P "business"
    → P "enterprise"
    → (b : String)
    → (str_eq b "free" ≡ false
        → str_eq b "pro" ≡ false
        → str_eq b "family" ≡ false
        → str_eq b "team" ≡ false
        → str_eq b "business" ≡ false
        → str_eq b "enterprise" ≡ false
        → P b)
    → P b
families P p1 p2 p3 p4 p5 p6 b other = case "free" p1 λ e1. case "pro" p2 λ e2.
    case "family" p3 λ e3.
      case "team" p4
        λ e4. case "business" p5 λ e5. case "enterprise" p6 λ e6. other e1 e2 e3 e4 e5 e6
  where
    case : (s : String) → P s → (str_eq b s ≡ false → P b) → P b
    case s p k = elim (Bool-cases (str_eq b s)) [ inl e ↦ rw ((eq_iff b s).0 e) p | inr e ↦ k e ]

multi_user_family-rank : (b : String) → multi_user_family b ≡ leb 1 (plan_rank b)
unfolding multi_user_family plan_rank
multi_user_family-rank b =
    families (λ b. multi_user_family b ≡ leb 1 (plan_rank b)) refl refl refl refl refl refl b
      λ e1 e2 e3 e4 e5 e6. rw (e1, e2, e3, e4, e5, e6)

-- A plan is for several users exactly when its family meets the lowest policy tier.
pub multi_user-meets-team :
    (code : String) → is_multi_user_plan code ≡ tier_meets_minimum (base_plan code) team
unfolding is_multi_user_plan tier_meets_minimum
multi_user-meets-team code = multi_user_family-rank (base_plan code)

-- No plan is both for personal vaults and for several users.
pub personal-multi_disjoint :
    (code : String) → (is_personal_vault_plan code && is_multi_user_plan code) ≡ false
unfolding is_personal_vault_plan is_multi_user_plan personal_family multi_user_family
personal-multi_disjoint code =
    families (λ b. (personal_family b && multi_user_family b) ≡ false) refl refl refl refl refl refl
      (base_plan code) λ e1 e2 e3 e4 e5 e6. rw (e1, e2)
