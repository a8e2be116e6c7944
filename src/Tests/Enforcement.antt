-- ===== src/Tests/Enforcement.antt =====
-- Firewall rules on addresses that are texts, and a policy table with one policy.
use passwall_server.Base.{
  ℕ, Option, none, some, String, true, List, [], ◌∷◌, Gorm, memory, memory-IsGorm, Result, ok, err,
  not_found, ◌≡◌, ◌≢◌, ◌↔◌, refl, str_eq, Memᴰ, mem-cons, inl, inr,
}
use passwall_server.Membership.Record.{OrganizationUser, member}
use passwall_server.Policy.Record.{OrganizationPolicy, key, rekey, array}
use passwall_server.Enforcement.Firewall.{
  Network, FirewallRule, check_rules, evaluate, matched, answer, parse_firewall_rules,
}
use passwall_server.Enforcement.FirstMatch.{LetsIn, check_rules_iff}
use passwall_server.Enforcement.Rules.{elements_of, parse_firewall_rules-elements_of}
use passwall_server.Enforcement.Refusal.{sends, reads_of, OnePolicy, run_check, run_check-refuses}

abbrev net : Network
net = record {
  Ip = String;
  Cidr = String;
  trim_space = λ s. s;
  parse_ip = λ s. some s;
  equal = str_eq;
  parse_cidr = λ s. some s;
  contains = str_eq;
}

abbrev rules : List FirewallRule
rules =
    record { type = "ip"; value = "1.2.3.4"; action = "deny" }
    ∷ record { type = "cidr"; value = "1.2.3.5"; action = "allow" }
    ∷ []

check_rules_iff_example :
    ((check_rules net "1.2.3.5" rules).allowed ≡ true) ↔ LetsIn net "1.2.3.5" rules
check_rules_iff_example = check_rules_iff net "1.2.3.5" "1.2.3.5" rules refl

let_in_second : (check_rules net "1.2.3.5" rules).allowed ≡ true
unfolding evaluate matched answer
let_in_second = refl

parse_firewall_rules-elements_of_example :
    parse_firewall_rules (("rules", array (elements_of rules)) ∷ []) ≡ rules
parse_firewall_rules-elements_of_example = parse_firewall_rules-elements_of rules (refl, (refl, tt))

abbrev db : Gorm OrganizationPolicy
db = memory key rekey

abbrev no_sends : OrganizationPolicy
no_sends = record {
  id = 1;
  uuid = "p";
  organization_id = 3;
  type = "remove_send";
  enabled = true;
  policy_data = [];
  last_enabled_by_user_id = none;
  last_disabled_by_user_id = none;
}

abbrev members : ℕ → ℕ → Result OrganizationUser
members o u = err not_found

abbrev plan_codes : ℕ → Result (Option String)
plan_codes o = ok none

no_sends-OnePolicy : OnePolicy 3 "remove_send" (no_sends ∷ []) no_sends
no_sends-OnePolicy = (
  Memᴰ.head refl,
  refl,
  refl,
  refl,
  λ q m e t. elim (mem-cons m) [ inl h ↦ h | inr n ↦ elim n [ ] ],
)

run_check-refuses_example :
    run_check (reads_of db members plan_codes (no_sends ∷ [])) sends 3 member ≢ ok tt
run_check-refuses_example =
    run_check-refuses db members plan_codes 3 (no_sends ∷ []) sends member no_sends
      (memory-IsGorm key rekey (λ k r. refl)) no_sends-OnePolicy refl
