-- ===== src/Enforcement/FirstMatch.antt =====
-- The first rule that applies decides.
use passwall_server.Base.{
  none, some, String, Bool, true, false, List, [], ◌∷◌, str_eq, ◌||◌, ◌&&◌, not, All, ◌≡◌, refl,
  sym, ap, ◌∙◌, ◌↔◌, ◌⊎◌, inl, inr, Bool-cases, and_left, arith,
}
use passwall_server.Enforcement.Firewall.{
  Network, FirewallRule, FirewallCheckResult, matched, answer, evaluate, has_allow_rules,
  check_rules, decided, action_allow, action_deny, action_report, denied, reported, no_reason,
}

-- A rule that matches and has one of the three actions.
unfoldable pub applies : (net : Network) → net.Ip → FirewallRule → Bool
applies net ip r =
    matched net ip r
    && (str_eq r.action "allow" || (str_eq r.action "deny" || str_eq r.action "report"))

-- The first of the rules that applies.
pub data First (net : Network) (ip : net.Ip) : List FirewallRule → FirewallRule → Type 0 where
  here :
      (r : FirewallRule) (rules : List FirewallRule)
      → applies net ip r ≡ true
      → First net ip (r ∷ rules) r
  later :
      (r s : FirewallRule) (rules : List FirewallRule)
      → applies net ip s ≡ false
      → First net ip rules r
      → First net ip (s ∷ rules) r

-- What a list of rules is to let in: the first rule that applies does not deny, or none applies
-- and none allows.
abbrev pub LetsIn : (net : Network) → net.Ip → List FirewallRule → Type 0
LetsIn net ip rules =
    ((r : FirewallRule) × First net ip rules r × (str_eq r.action "deny" ≡ false))
    ⊎ (All (λ r. applies net ip r ≡ false) rules × All (λ r. str_eq r.action "allow" ≡ false) rules)

flip_lem : (b : Bool) → not b ≡ true → b ≡ false
flip_lem b h = ground arith

module _ (net : Network) (ip : net.Ip) where
  -- A rule that applies has an answer, which lets in where it does not deny.
  answer_lem :
      (r : FirewallRule)
      → applies net ip r ≡ true
      → (res : FirewallCheckResult) × (answer net r ≡ some res)
        × (matched net ip r ≡ true)
        × (res.allowed ≡ not (str_eq r.action "deny"))
  unfolding applies answer
  answer_lem r h =
      let m = and_left (matched net ip r) _ h in
      elim (Bool-cases (str_eq r.action action_deny)) [
        | inl d ↦ (
          record { allowed = false; matched_rule = some r; reason = denied },
          rw d refl,
          m,
          rw d refl,
        )
        | inr nd ↦ elim (Bool-cases (str_eq r.action action_allow)) [
          | inl a ↦ (
            record { allowed = true; matched_rule = some r; reason = no_reason },
            rw (nd, a) refl,
            m,
            rw nd refl,
          )
          | inr na ↦
              let p : str_eq r.action action_report ≡ true = ground arith in
              (
                record { allowed = true; matched_rule = some r; reason = reported },
                rw (nd, na, p) refl,
                m,
                rw nd refl,
              )
        ]
      ]

  evaluate_skips :
      (r : FirewallRule) (rules : List FirewallRule)
      → applies net ip r ≡ false
      → evaluate net ip (r ∷ rules) ≡ evaluate net ip rules
  unfolding applies evaluate answer
  evaluate_skips r rules h = elim (Bool-cases (matched net ip r)) [
    | inr n ↦ rw n refl
    | inl m ↦
        let nd : str_eq r.action action_deny ≡ false = ground arith in
        let na : str_eq r.action action_allow ≡ false = ground arith in
        let np : str_eq r.action action_report ≡ false = ground arith in rw (m, nd, na, np) refl
  ]

  evaluate-none :
      (rules : List FirewallRule)
      → All (λ r. applies net ip r ≡ false) rules
      → evaluate net ip rules ≡ none
  unfolding evaluate
  evaluate-none [] h = refl
  evaluate-none (r ∷ rules) h = evaluate_skips r rules h.0 ∙ evaluate-none rules h.1

  evaluate_first :
      (rules : List FirewallRule) (r : FirewallRule)
      → First net ip rules r
      → (res : FirewallCheckResult) × (evaluate net ip rules ≡ some res)
        × (res.allowed ≡ not (str_eq r.action "deny"))
  unfolding evaluate
  evaluate_first _ _ (First.here r rules h) =
      let (res, e, m, a) = answer_lem r h in (res, rw (m, e) refl, a)
  evaluate_first _ _ (First.later r s rules h f) =
      let (res, e, a) = evaluate_first rules r f in (res, evaluate_skips s rules h ∙ e, a)

  find_first :
      (rules : List FirewallRule)
      → ((r : FirewallRule) × First net ip rules r) ⊎ All (λ r. applies net ip r ≡ false) rules
  find_first [] = inr tt
  find_first (r ∷ rules) = elim (Bool-cases (applies net ip r)) [
    | inl t ↦ inl (r, First.here r rules t)
    | inr f ↦ elim (find_first rules) [
      | inl (s, g) ↦ inl (s, First.later s r rules f g)
      | inr g ↦ inr (f, g)
    ]
  ]

  has_allow_rules_none :
      (rules : List FirewallRule)
      → (has_allow_rules net rules ≡ false) ↔ All (λ r. str_eq r.action "allow" ≡ false) rules
  unfolding has_allow_rules
  has_allow_rules_none [] = (λ h. tt, λ h. refl)
  has_allow_rules_none (r ∷ rules) = elim (Bool-cases (str_eq r.action "allow")) [
    | inl t ↦ (λ h. absurd (ground arith), λ h. absurd (let f = h.0 in ground arith))
    | inr f ↦ (
      λ h. (f, (has_allow_rules_none rules).0 (rw f at h)),
      λ h. rw f ((has_allow_rules_none rules).1 h.1),
    )
  ]

  allowed_sound :
      (rules : List FirewallRule)
      → (decided net (evaluate net ip rules) (has_allow_rules net rules)).allowed ≡ true
      → LetsIn net ip rules
  allowed_sound rules h = elim (find_first rules) [
    | inl (r, f) ↦
        let (res, e, a) = evaluate_first rules r f in inl (r, f, flip_lem _ (sym a ∙ (rw e at h)))
    | inr never ↦ elim (Bool-cases (has_allow_rules net rules)) [
      | inl t ↦ absurd (let k = rw (evaluate-none rules never, t) at h in ground arith)
      | inr f ↦ inr (never, (has_allow_rules_none rules).0 f)
    ]
  ]

  allowed_complete :
      (rules : List FirewallRule)
      → LetsIn net ip rules
      → (decided net (evaluate net ip rules) (has_allow_rules net rules)).allowed ≡ true
  allowed_complete rules (inl (r, f, nd)) =
      let (res, e, a) = evaluate_first rules r f in rw e (a ∙ ap not nd)
  allowed_complete rules (inr (never, na)) =
      rw (evaluate-none rules never, (has_allow_rules_none rules).1 na) refl

-- Where the address of the client can be parsed, the firewall lets it in exactly if the first of
-- the rules that matches it and has one of the three actions does not deny, or there is no such
-- rule and no rule that allows.
pub check_rules_iff :
    (net : Network) (client_ip : String) (ip : net.Ip) (rules : List FirewallRule)
    → net.parse_ip (net.trim_space client_ip) ≡ some ip
    → ((check_rules net client_ip rules).allowed ≡ true) ↔ LetsIn net ip rules
check_rules_iff net client_ip ip [] h = (λ e. inr (tt, tt), λ e. refl)
check_rules_iff net client_ip ip (r ∷ rules) h =
    rw h (allowed_sound net ip (r ∷ rules), allowed_complete net ip (r ∷ rules))
