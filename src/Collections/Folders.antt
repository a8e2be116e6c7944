-- ===== src/Collections/Folders.antt =====
-- Creating, changing and deleting a collection (internal/service/collection_service.go). The plan's
-- limit of collections is an argument: `none` where the subscription or its plan is not found.
use passwall_server.Base.{
  ℕ, String, Bool, true, false, not, Option, none, some, M, ◌==◌, Result, ok, err, query, lift,
  require, on_error, pure, wrap, message, forbidden, ltb, ◌>>=◌, ◌>>◌,
}
use passwall_server.Membership.Record.{is_admin, can_manage_collections}
use passwall_server.Collections.Record.{
  Collection, Store, Engines, get_collection, get_by_name, get_default_by_organization,
  get_collection_count, create_collection, update_collection, soft_delete, move_items_to_collection,
  find_by_org_and_user,
}
use passwall_server.Collections.Service.{check_collection_manage_permission}

pub record CreateCollectionRequest : Type 0 where
  pub name : String
  pub description : String
  pub is_private : Bool

pub record UpdateCollectionRequest : Type 0 where
  pub name : Option String
  pub description : Option String
  pub is_private : Option Bool

-- The limit of a subscription's plan: MaxCollections of the plan, which may be missing.
pub record Plan : Type 0 where
  pub max_collections : Option ℕ

abbrev pub limit_or_unlimited : Option ℕ → ℕ
limit_or_unlimited (some n) = n
limit_or_unlimited none = 999999

abbrev pub plan_limit : Option Plan → Result ℕ
plan_limit none = err (message "subscription plan not loaded")
plan_limit (some p) = ok (limit_or_unlimited p.max_collections)

unfoldable pub get_max_collections : Result (Option Plan) → Result ℕ
get_max_collections (ok plan) = plan_limit plan
get_max_collections (err e) = err (wrap "failed to get subscription" e)

-- No collection, or none but the one given, is found under the name.
abbrev pub is_missing : Result Collection → Bool
is_missing (ok c) = false
is_missing (err e) = true

abbrev pub is_free_for : ℕ → Result Collection → Bool
is_free_for id (ok c) = c.id == id
is_free_for id (err e) = true

abbrev pub given_or {ℓ} : {A : Type ℓ} → Option A → A → A
given_or none a = a
given_or (some b) a = b

abbrev pub new_collection : ℕ → CreateCollectionRequest → Collection
new_collection org_id req = record {
  id = 0;
  organization_id = org_id;
  name = req.name;
  description = req.description;
  is_default = false;
  is_private = req.is_private;
  deleted_at = none;
}

abbrev pub changed_collection : UpdateCollectionRequest → Collection → Collection
changed_collection req c = record c {
  name = given_or req.name c.name;
  description = given_or req.description c.description;
  is_private = given_or req.is_private c.is_private;
}

module _ (db : Engines) (subscription : ℕ → Result (Option Plan)) where
  unfoldable pub create : ℕ → ℕ → CreateCollectionRequest → M Store Collection
  create org_id user_id req = do
    ou ← on_error (λ _. forbidden) (query (find_by_org_and_user db org_id user_id))
    require (can_manage_collections ou) forbidden
    n ← on_error (wrap "failed to get collection count") (query (get_collection_count db org_id))
    max ←
        on_error (wrap "failed to get plan limits")
          (lift (get_max_collections (subscription org_id)))
    require (ltb n max) (message "organization has reached max collections limit")
    free ← query (λ s. ok (is_missing (get_by_name db org_id req.name s)))
    require free (message "collection with this name already exists")
    on_error (wrap "failed to create collection") (create_collection db (new_collection org_id req))

module _ (db : Engines) where
  abbrev pub check_name : ℕ → Collection → Option String → M Store (Unit {0})
  check_name id c none = pure tt
  check_name id c (some name) = do
    free ← query (λ s. ok (is_free_for id (get_by_name db c.organization_id name s)))
    require free (message "collection with this name already exists")

  unfoldable pub update : ℕ → ℕ → UpdateCollectionRequest → M Store Collection
  update id user_id req = do
    c ← on_error (wrap "collection not found") (query (get_collection db id))
    can_manage ← check_collection_manage_permission db c.organization_id id user_id
    require can_manage forbidden
    checked ← check_name id c req.name
    written ←
        on_error (wrap "failed to update collection")
          (update_collection db (changed_collection req c))
    pure (changed_collection req c)

  -- `now` is the time at which the row is marked as deleted.
  unfoldable pub delete : ℕ → ℕ → ℕ → M Store (Unit {0})
  delete now id user_id = do
    c ← on_error (wrap "collection not found") (query (get_collection db id))
    require (not c.is_default) (message "cannot delete default collection")
    ou ← on_error (λ _. forbidden) (query (find_by_org_and_user db c.organization_id user_id))
    require (is_admin ou) forbidden
    def ←
        on_error (λ _. message "default collection not found")
          (query (get_default_by_organization db c.organization_id))
    moved ←
        on_error (wrap "failed to move items to default collection")
          (move_items_to_collection db id def.id)
    on_error (wrap "failed to delete collection") (soft_delete db now id)
