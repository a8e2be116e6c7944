-- ===== src/Enforcement/Firewall.antt =====
-- internal/service/policy_firewall.go. `Network` is what the service uses of Go's packages net and
-- strings; the wording of the reasons is left out but for which of them is given.
use passwall_server.Base.{
  Option, none, some, String, Bool, true, false, List, [], ◌∷◌, str_eq, ◌&&◌, not, if◌then◌else◌,
  Result, ok, err,
}
use passwall_server.Policy.Record.{
  Value, text, array, object, Elements, end, element, Fields, close, field, PolicyData, lookup,
}

pub record Network : Type 1 where
  pub Ip : Type 0
  pub Cidr : Type 0
  pub trim_space : String → String
  pub parse_ip : String → Option Ip
  pub equal : Ip → Ip → Bool
  pub parse_cidr : String → Option Cidr
  pub contains : Cidr → Ip → Bool

pub record FirewallRule : Type 0 where
  pub type : String
  pub value : String
  pub action : String

abbrev pub action_allow : String
action_allow = "allow"

abbrev pub action_deny : String
action_deny = "deny"

abbrev pub action_report : String
action_report = "report"

pub data Reason : Type 0 where
  no_reason unparsed_client denied reported implicit_deny : Reason

pub record FirewallCheckResult : Type 0 where
  pub allowed : Bool
  pub matched_rule : Option FirewallRule
  pub reason : Reason

abbrev pub let_in : FirewallCheckResult
let_in = record { allowed = true; matched_rule = none; reason = no_reason }

abbrev pub text_or_empty : Option Value → String
text_or_empty (some (text t)) = t
text_or_empty _ = ""

unfoldable pub lookup_field : String → Fields → Option Value
lookup_field k close = none
lookup_field k (field j v fs) = if str_eq j k then some v else lookup_field k fs

abbrev pub rule_of : Fields → FirewallRule
rule_of fs = record {
  type = text_or_empty (lookup_field "type" fs);
  value = text_or_empty (lookup_field "value" fs);
  action = text_or_empty (lookup_field "action" fs);
}

abbrev pub is_complete : FirewallRule → Bool
is_complete r = not (str_eq r.type "") && not (str_eq r.action "")

-- The loop of parseFirewallRules: what is no object, and a rule without a type or an action, is
-- skipped.
unfoldable pub rules_of : Elements → List FirewallRule
rules_of end = []
rules_of (element (object fs) es) =
    let rest = rules_of es in if is_complete (rule_of fs) then rule_of fs ∷ rest else rest
rules_of (element _ es) = rules_of es

abbrev pub rules_of_value : Option Value → List FirewallRule
rules_of_value (some (array es)) = rules_of es
rules_of_value _ = []

abbrev pub parse_firewall_rules : PolicyData → List FirewallRule
parse_firewall_rules d = rules_of_value (lookup "rules" d)

module _ (net : Network) where
  abbrev pub same_ip : Option net.Ip → net.Ip → Bool
  same_ip none ip = false
  same_ip (some rule_ip) ip = net.equal rule_ip ip

  abbrev pub in_range : Option net.Cidr → net.Ip → Bool
  in_range none ip = false
  in_range (some cidr) ip = net.contains cidr ip

  unfoldable pub matched : net.Ip → FirewallRule → Bool
  matched ip rule =
      if str_eq rule.type "ip"
      then same_ip (net.parse_ip (net.trim_space rule.value)) ip
      else if str_eq rule.type "cidr"
      then in_range (net.parse_cidr (net.trim_space rule.value)) ip
      else false

  -- The answer of a rule that matched; none where its action is none of the three.
  unfoldable pub answer : FirewallRule → Option FirewallCheckResult
  answer rule =
      if str_eq rule.action action_deny
      then some (record { allowed = false; matched_rule = some rule; reason = denied })
      else if str_eq rule.action action_allow
      then some (record { allowed = true; matched_rule = some rule; reason = no_reason })
      else if str_eq rule.action action_report
      then some (record { allowed = true; matched_rule = some rule; reason = reported })
      else none

  -- The rules in order.
  unfoldable pub evaluate : net.Ip → List FirewallRule → Option FirewallCheckResult
  evaluate ip [] = none
  evaluate ip (rule ∷ rules) =
      let rest = evaluate ip rules in
      if matched ip rule then elim (answer rule) [ some r ↦ some r | none ↦ rest ] else rest

  unfoldable pub has_allow_rules : List FirewallRule → Bool
  has_allow_rules [] = false
  has_allow_rules (rule ∷ rules) =
      let rest = has_allow_rules rules in if str_eq rule.action action_allow then true else rest

  abbrev pub by_default : Bool → FirewallCheckResult
  by_default true = record { allowed = false; matched_rule = none; reason = implicit_deny }
  by_default false = let_in

  abbrev pub decided : Option FirewallCheckResult → Bool → FirewallCheckResult
  decided (some r) b = r
  decided none b = by_default b

  abbrev pub check_client : Option net.Ip → List FirewallRule → FirewallCheckResult
  check_client none rules = record {
    allowed = false;
    matched_rule = none;
    reason = unparsed_client;
  }
  check_client (some ip) rules = decided (evaluate ip rules) (has_allow_rules rules)

  abbrev pub check_rules : String → List FirewallRule → FirewallCheckResult
  check_rules client_ip [] = let_in
  check_rules client_ip (rule ∷ rules) =
      check_client (net.parse_ip (net.trim_space client_ip)) (rule ∷ rules)

  -- What GetPolicyData answers, and the address of the client.
  unfoldable pub check_access : Result (Option PolicyData) → String → FirewallCheckResult
  check_access (err e) client_ip = let_in
  check_access (ok none) client_ip = let_in
  check_access (ok (some d)) client_ip = check_rules client_ip (parse_firewall_rules d)
