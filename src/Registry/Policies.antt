-- ===== src/Registry/Policies.antt =====
-- The policies: internal/platform/policies.
use clawbot_server.Base.{ℕ, String, Bool, List, Option, or_else, ◌==◌, if◌then◌else◌, refl}
use clawbot_server.Json.{Raw, or_braces}
use clawbot_server.Text.{trim_space}
use clawbot_server.Registry.{
  Kind, Outside, Result, ok, err, name_required, jsonb, Action, get_entry, create_entry,
  update_entry, statement, rows_now, ◌>>◌,
}
use clawbot_server.Registry.Mirrors.{KeepsId}
use clawbot_server.Registry.Bots.{set_text, with_config}

pub record Policy : Type 0 where
  pub id : String
  pub name : String
  pub category : String
  pub version : String
  pub enabled : Bool
  pub description : String
  pub rules_json : Raw
  pub created_at : ℕ
  pub updated_at : ℕ

pub record CreatePolicyInput : Type 0 where
  pub name : String
  pub category : String
  pub version : String
  pub enabled : Bool
  pub description : String
  pub rules_json : Raw

pub record UpdatePolicyInput : Type 0 where
  pub name : Option String
  pub category : Option String
  pub version : Option String
  pub enabled : Option Bool
  pub description : Option String
  pub rules_json : Option Raw

unfoldable pub prepare_policy : CreatePolicyInput → Result CreatePolicyInput
prepare_policy input =
    let name = trim_space input.name in
    if name == ""
    then err name_required
    else ok (record input { name = name; rules_json = or_braces input.rules_json })

abbrev merged_policy : Policy → UpdatePolicyInput → Policy
merged_policy existing input = record existing {
  name = set_text input.name existing.name;
  category = set_text input.category existing.category;
  version = set_text input.version existing.version;
  enabled = or_else input.enabled existing.enabled;
  description = set_text input.description existing.description;
  rules_json = or_else input.rules_json existing.rules_json;
}

abbrev checked_policy : Policy → Result Policy
checked_policy policy =
    if policy.name == ""
    then err name_required
    else ok (record policy { rules_json = or_braces policy.rules_json })

unfoldable pub merge_policy : Policy → UpdatePolicyInput → Result Policy
merge_policy existing input = checked_policy (merged_policy existing input)

unfoldable pub insert_policy_columns : CreatePolicyInput → Result CreatePolicyInput
insert_policy_columns input =
    with_config (λ raw. record input { rules_json = raw }) (jsonb input.rules_json)

unfoldable pub new_policy : CreatePolicyInput → String → ℕ → Policy
new_policy input id now = record {
  id = id;
  name = input.name;
  category = input.category;
  version = input.version;
  enabled = input.enabled;
  description = input.description;
  rules_json = input.rules_json;
  created_at = now;
  updated_at = now;
}

unfoldable pub update_policy_columns : Policy → Result Policy
update_policy_columns item =
    with_config (λ raw. record item { rules_json = raw }) (jsonb item.rules_json)

unfoldable pub stored_policy : Policy → Policy → ℕ → Policy
stored_policy row item now = record item {
  id = row.id;
  created_at = row.created_at;
  updated_at = now;
}

abbrev pub policies : Kind Policy CreatePolicyInput UpdatePolicyInput
policies = record {
  prepare = prepare_policy;
  insert_columns = insert_policy_columns;
  new_row = new_policy;
  merge = merge_policy;
  update_columns = update_policy_columns;
  stored = stored_policy;
  id_of = λ policy. policy.id;
  entity_type = "policy";
  created_event = "policy.created";
  updated_event = "policy.updated";
}

pub policies-KeepsId : KeepsId policies
unfolding stored_policy
policies-KeepsId row item now = refl

module _ (env : Outside) where
  unfoldable pub create_policy : CreatePolicyInput → String → Action Policy Policy
  create_policy input actor = create_entry env policies input actor

  unfoldable pub update_policy : String → UpdatePolicyInput → String → Action Policy Policy
  update_policy id input actor = update_entry env policies id input actor

  unfoldable pub get_policy : String → Action Policy Policy
  get_policy id = get_entry env policies id

  -- Newest first, as the table keeps them.
  unfoldable pub list_policies : Action Policy (List Policy)
  list_policies = statement env >> rows_now
