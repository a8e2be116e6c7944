-- ===== src/Permission/ReadOnly.antt =====
-- What the matrix of permissions promises.
use passwall_server.Base.{
  map_result, ℕ, String, Bool, true, false, not, Option, none, some, List, [], ◌∷◌, str_eq,
  if◌then◌else◌, Result, ok, err, ok-injective, ◌≡◌, refl, ap, sym, ◌∙◌, ◌⊎◌, Memᴰ, inl, inr,
  Bool-cases, eq_iff, ◌&&◌, and_left, and_right, arith, subst, ◌↔◌,
}
use passwall_server.Membership.Record.{
  OrganizationRole, OrganizationUser, owner, admin, manager, member, billing, other_role,
}
use passwall_server.Subscription.Record.{Subscription, can_write}
use passwall_server.Permission.Matrix.{
  permission_matrix, contains, can, is_write_permission, contains_known, known_or_empty,
  get_permissions, owner_permissions, admin_permissions, manager_permissions, member_permissions,
  billing_permissions, read_only_permissions, write_permissions,
}
use passwall_server.Permission.Service.{
  check_subscription_override, override_answer, get_effective_role, role_answer, can_in,
  get_user_permissions,
}

-- A member whose role has the permission, of an organization whose subscription allows writing.
abbrev pub Allowed : String → Result OrganizationUser → Result Subscription → Type 0
Allowed permission membership subscription =
    (m : OrganizationUser) × (sub : Subscription) × (membership ≡ ok m)
    × (subscription ≡ ok sub)
    × (can_write sub ≡ true)
    × (can m.role permission ≡ true)

-- Every element of the first list is in the second, and none is.
unfoldable all_in : List String → List String → Bool
all_in [] qs = true
all_in (p ∷ ps) qs = contains p qs && all_in ps qs

unfoldable none_in : List String → List String → Bool
none_in [] qs = true
none_in (p ∷ ps) qs = not (contains p qs) && none_in ps qs

all_in_lem :
    (x : String) (ps qs : List String)
    → all_in ps qs ≡ true
    → contains x ps ≡ true
    → contains x qs ≡ true
unfolding all_in contains
all_in_lem x [] qs h k = cc
all_in_lem x (p ∷ ps) qs h k = elim (Bool-cases (str_eq p x)) [
  | inl e ↦ subst (λ y. contains y qs ≡ true) ((eq_iff p x).0 e) (and_left _ _ h)
  | inr e ↦ all_in_lem x ps qs (and_right _ _ h) (rw e at k)
]

flip_true : (b : Bool) → not b ≡ true → b ≡ false
flip_true b h = ground arith

flip_false : (b : Bool) → not b ≡ false → b ≡ true
flip_false b h = ground arith

none_in_lem :
    (x : String) (ps qs : List String)
    → none_in ps qs ≡ true
    → contains x ps ≡ true
    → contains x qs ≡ false
unfolding none_in contains
none_in_lem x [] qs h k = cc
none_in_lem x (p ∷ ps) qs h k = elim (Bool-cases (str_eq p x)) [
  | inl e ↦
      flip_true _ (subst (λ y. not (contains y qs) ≡ true) ((eq_iff p x).0 e) (and_left _ _ h))
  | inr e ↦ none_in_lem x ps qs (and_right _ _ h) (rw e at k)
]

admin_in : all_in admin_permissions owner_permissions ≡ true
unfolding all_in contains
admin_in = refl

manager_in : all_in manager_permissions owner_permissions ≡ true
unfolding all_in contains
manager_in = refl

member_in : all_in member_permissions owner_permissions ≡ true
unfolding all_in contains
member_in = refl

billing_in : all_in billing_permissions owner_permissions ≡ true
unfolding all_in contains
billing_in = refl

read_in : all_in read_only_permissions owner_permissions ≡ true
unfolding all_in contains
read_in = refl

read_not_write : none_in read_only_permissions write_permissions ≡ true
unfolding none_in contains
read_not_write = refl

known_if :
    (permission : String) (b : Bool)
    → contains_known permission (if b then some read_only_permissions else none) ≡ true
    → contains permission owner_permissions ≡ true
known_if p true h = all_in_lem p read_only_permissions owner_permissions read_in h
known_if p false h = cc

known :
    (permission : String) (perms : Option (List String))
    → contains_known permission perms ≡ contains permission (known_or_empty perms)
unfolding contains
known p none = refl
known p (some perms) = refl

listed :
    (permission : String) (role : Result OrganizationRole)
    → map_result (λ r. can r permission) role
      ≡ map_result (contains permission) (map_result get_permissions role)
unfolding can get_permissions contains
listed p (err e) = refl
listed p (ok role) = ap ok (known p (permission_matrix role))

-- Whatever a role may do, also one that is not known, the owner may do.
pub owner_may_all :
    (role : OrganizationRole) (permission : String)
    → can role permission ≡ true
    → can owner permission ≡ true
unfolding can permission_matrix
owner_may_all owner p h = h
owner_may_all admin p h = all_in_lem p admin_permissions owner_permissions admin_in h
owner_may_all manager p h = all_in_lem p manager_permissions owner_permissions manager_in h
owner_may_all member p h = all_in_lem p member_permissions owner_permissions member_in h
owner_may_all billing p h = all_in_lem p billing_permissions owner_permissions billing_in h
owner_may_all (other_role s) p h = known_if p (str_eq s "read_only") h

written_when :
    (permission : String) (overridden : Bool) (m : Result OrganizationUser)
    → is_write_permission permission ≡ true
    → map_result (λ role. can role permission) (role_answer overridden m) ≡ ok true
    → overridden ≡ false
unfolding can permission_matrix is_write_permission
written_when p false m w h = refl
written_when p true (err e) w h = cc
written_when p true (ok m) w h =
    cc (none_in_lem p read_only_permissions write_permissions read_not_write (ok-injective h), w)

member_found :
    (permission : String) (s : Result Subscription) (m : Result OrganizationUser)
    → override_answer s ≡ false
    → map_result (λ role. can role permission) (role_answer (override_answer s) m) ≡ ok true
    → Allowed permission m s
member_found p (err e) m o h = cc
member_found p (ok sub) (err e) o h = cc
member_found p (ok sub) (ok m) o h = (m, sub, refl, refl, flip_false _ o, ok-injective (rw o at h))

allowing :
    (permission : String) (membership : Result OrganizationUser)
    (subscription : Result Subscription)
    → Allowed permission membership subscription
    → map_result
        (λ role. can role permission)
        (role_answer (override_answer subscription) membership)
      ≡ ok true
allowing p membership subscription (m, sub, found, current, writes, may) =
    rw (found, current, writes) (ap ok may)

-- A permission to write is granted exactly if the user is a member whose role has it, and the
-- organization has a subscription that allows writing. A missing subscription does not.
pub write_may_iff :
    (memberships : ℕ → ℕ → Result OrganizationUser) (subscriptions : ℕ → Result Subscription)
    (user_id org_id : ℕ) (permission : String)
    → is_write_permission permission ≡ true
    → (can_in memberships subscriptions user_id org_id permission ≡ ok true)
      ↔ Allowed permission (memberships user_id org_id) (subscriptions org_id)
unfolding can_in get_effective_role check_subscription_override
write_may_iff memberships subscriptions user_id org_id permission w = (
  λ h.
      member_found permission (subscriptions org_id) (memberships user_id org_id)
        (written_when permission (override_answer (subscriptions org_id))
          (memberships user_id org_id) w h)
        h,
  allowing permission (memberships user_id org_id) (subscriptions org_id),
)

contains_mem : (p : String) (ps : List String) → contains p ps ≡ true → Memᴰ p ps
unfolding contains
contains_mem p [] h = cc
contains_mem p (q ∷ ps) h = elim (Bool-cases (str_eq q p)) [
  | inl e ↦ Memᴰ.head (sym ((eq_iff q p).0 e))
  | inr e ↦ Memᴰ.tail (contains_mem p ps (rw e at h))
]

mem-contains : (p : String) (ps : List String) → Memᴰ p ps → contains p ps ≡ true
unfolding contains
mem-contains p [] m = elim m [ ]
mem-contains p (q ∷ ps) (Memᴰ.head e) = rw ((eq_iff q p).1 (sym e)) refl
mem-contains p (q ∷ ps) (Memᴰ.tail m) = elim (Bool-cases (str_eq q p)) [
  | inl e ↦ rw e refl
  | inr e ↦ rw e (mem-contains p ps m)
]

-- A subscription that is found and not expired.
abbrev pub Writable : Result Subscription → Type 0
Writable subscription = (sub : Subscription) × (subscription ≡ ok sub) × (can_write sub ≡ true)

abbrev pub Shown :
    (ℕ → ℕ → Result OrganizationUser) → (ℕ → Result Subscription) → ℕ → ℕ → List String → Type 0
Shown memberships subscriptions user_id org_id perms =
    ((p : String) → Memᴰ p perms ↔ (can_in memberships subscriptions user_id org_id p ≡ ok true))
    × (Writable (subscriptions org_id) ⊎ ((p : String) → Memᴰ p perms → ¬ Memᴰ p write_permissions))

unexpired_or :
    (subscription : Result Subscription)
    → Writable subscription ⊎ (override_answer subscription ≡ true)
unexpired_or (err e) = inr refl
unexpired_or (ok sub) = elim (Bool-cases (can_write sub)) [
  | inl t ↦ inl (sub, refl, t)
  | inr f ↦ inr (ap not f)
]

-- The list of permissions that a user is shown holds a permission exactly if the check of that
-- permission grants it; and the organization has a subscription that is not expired, or no
-- permission to write is in the list.
pub get_user_permissions-Shown :
    (memberships : ℕ → ℕ → Result OrganizationUser) (subscriptions : ℕ → Result Subscription)
    (user_id org_id : ℕ) (perms : List String)
    → get_user_permissions memberships subscriptions user_id org_id ≡ ok perms
    → Shown memberships subscriptions user_id org_id perms
unfolding can_in get_user_permissions get_effective_role check_subscription_override
    is_write_permission
get_user_permissions-Shown memberships subscriptions user_id org_id perms h =
    let role = role_answer (override_answer (subscriptions org_id)) (memberships user_id org_id) in
    let same : (p : String) → map_result (λ r. can r p) role ≡ ok (contains p perms) =
      λ p. listed p role ∙ ap (map_result (contains p)) h in
    (
      λ p. (
        λ m. same p ∙ ap ok (mem-contains p perms m),
        λ q. contains_mem p perms (ok-injective (sym (same p) ∙ q)),
      ),
      elim (unexpired_or (subscriptions org_id)) [
        | inl w ↦ inl w
        | inr o ↦ inr λ p m w.
            let f =
              written_when p (override_answer (subscriptions org_id)) (memberships user_id org_id)
                (mem-contains p write_permissions w) (same p ∙ ap ok (mem-contains p perms m)) in
            cc (o, f)
      ],
    )
