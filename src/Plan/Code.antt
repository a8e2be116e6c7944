-- ===== src/Plan/Code.antt =====
-- A plan code is a family with a billing suffix, such as "team-yearly". The families
-- (OrganizationPlan) are strings.
use passwall_server.Base.{ℕ, String, Bool, Option, none, some, str_eq, if◌then◌else◌, ◌||◌, leb}

-- `s[:len(s)-len(suffix)]` where `len(s) > len(suffix)` and `s` ends with `suffix`.
unfoldable pub strip_suffix : String → String → Option String
strip_suffix suffix String.[] = none
strip_suffix suffix (String.◌∷◌ c s) =
    if str_eq s suffix
    then some (String.◌∷◌ c String.[])
    else elim (strip_suffix suffix s) [ none ↦ none | some p ↦ some (String.◌∷◌ c p) ]

-- The loop over the two suffixes, which stops at the first that is there.
unfoldable pub base_plan : String → String
unfolding strip_suffix
base_plan plan = elim (strip_suffix "-monthly" plan) [
  | some base ↦ base
  | none ↦ elim (strip_suffix "-yearly" plan) [ some base ↦ base | none ↦ plan ]
]

-- The `case` lists of the two switches.
unfoldable pub personal_family : String → Bool
personal_family base = str_eq base "free" || str_eq base "pro"

unfoldable pub multi_user_family : String → Bool
multi_user_family base =
    str_eq base "family"
    || (str_eq base "team" || (str_eq base "business" || str_eq base "enterprise"))

unfoldable pub is_personal_vault_plan : String → Bool
unfolding base_plan personal_family
is_personal_vault_plan plan = personal_family (base_plan plan)

unfoldable pub is_multi_user_plan : String → Bool
unfolding base_plan multi_user_family
is_multi_user_plan plan = multi_user_family (base_plan plan)

-- The map `planRank`, in which a missing key reads 0.
unfoldable pub plan_rank : String → ℕ
plan_rank p =
    if str_eq p "free"
    then 0
    else if str_eq p "pro"
    then 0
    else if str_eq p "family"
    then 1
    else if str_eq p "team"
    then 1
    else if str_eq p "business"
    then 2
    else if str_eq p "enterprise"
    then 3
    else 0

pub data PolicyTier : Type 0 where
  no_tier team business enterprise : PolicyTier

-- The map `tierRank`; `no_tier` is the empty string that a failed lookup of a tier gives.
abbrev pub tier_rank : PolicyTier → ℕ
tier_rank no_tier = 0
tier_rank team = 1
tier_rank business = 2
tier_rank enterprise = 3

unfoldable pub tier_meets_minimum : String → PolicyTier → Bool
unfolding plan_rank
tier_meets_minimum actual_plan required_tier = leb (tier_rank required_tier) (plan_rank actual_plan)
