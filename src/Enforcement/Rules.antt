-- ===== src/Enforcement/Rules.antt =====
-- Firewall rules as JSON.
use passwall_server.Base.{List, [], ◌∷◌, true, All, ◌≡◌, refl, ap}
use passwall_server.Policy.Record.{
  text, array, object, Elements, end, element, Fields, close, field, lookup,
}
use passwall_server.Enforcement.Firewall.{
  FirewallRule, is_complete, rules_of, parse_firewall_rules, lookup_field,
}

unfoldable pub fields_of : FirewallRule → Fields
fields_of r =
    field "type" (text r.type) (field "value" (text r.value) (field "action" (text r.action) close))

unfoldable pub elements_of : List FirewallRule → Elements
elements_of [] = end
elements_of (r ∷ rules) = element (object (fields_of r)) (elements_of rules)

rules_of-elements_of :
    (rules : List FirewallRule)
    → All (λ r. is_complete r ≡ true) rules
    → rules_of (elements_of rules) ≡ rules
unfolding rules_of elements_of fields_of lookup_field
rules_of-elements_of [] h = refl
rules_of-elements_of (r ∷ rules) h = rw h.0 (ap (λ t. r ∷ t) (rules_of-elements_of rules h.1))

-- Rules that have a type and an action, written as JSON objects in an array under the key "rules",
-- are read back by the firewall as they were.
pub parse_firewall_rules-elements_of :
    (rules : List FirewallRule)
    → All (λ r. is_complete r ≡ true) rules
    → parse_firewall_rules (("rules", array (elements_of rules)) ∷ []) ≡ rules
unfolding lookup
parse_firewall_rules-elements_of rules h = rules_of-elements_of rules h
