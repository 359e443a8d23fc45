-- ===== src/Config/Build.antt =====
-- What a configuration file is turned into: `serviceConfigFromYAML` of cmd/memmy/main.go and
-- `NewTenantSchemaFromConfig` of internal/service/tenant_schema.go.
pub mod Agree
use memmy.Prelude.{
  String, str_eq, Bool, true, false, not, Option, none, some, List, [], ◌∷◌, if◌then◌else◌,
}
use memmy.Prelude.Dict.{Dict}
use memmy.Float.{Float}
use memmy.Service.Config.{Config}
use memmy.Service.Tenant.{TenantKey, TenantSchema}
use memmy.Config.{TenantKeyConfig, TenantSchemaConfig, FileConfig}
use memmy.Config.Validate.{is_configured}

module _ (f : Float) where
  unfoldable pub service_config_from_yaml : FileConfig f.F → Config f.F
  service_config_from_yaml c = record {
    chunk_window_size = c.memory.chunk_window_size;
    chunk_stride = c.memory.chunk_stride;
    default_k = c.memory.retrieval_k;
    default_hops = c.memory.retrieval_hops;
    default_oversample = c.memory.retrieval_oversample;
    sim_alpha = c.memory.scoring.sim_alpha;
    weight_beta = c.memory.scoring.weight_beta;
    depth_penalty_factor = f.decimal 2 0;
    node_lambda = c.memory.decay.node_lambda;
    edge_structural_lambda = c.memory.decay.edge_structural_lambda;
    edge_co_retrieval_lambda = c.memory.decay.edge_co_retrieval_lambda;
    edge_co_traversal_lambda = c.memory.decay.edge_co_traversal_lambda;
    node_delta = c.memory.reinforce.node_delta;
    edge_co_retrieval_base = c.memory.reinforce.edge_co_retrieval_base;
    edge_co_traversal_multiplier = c.memory.reinforce.edge_co_traversal_multiplier;
    edge_structural_weight = c.memory.reinforce.edge_structural_weight;
    edge_structural_temporal_weight = c.memory.reinforce.edge_structural_temporal_weight;
    edge_floor = c.memory.prune.edge_floor;
    node_floor = c.memory.prune.node_floor;
    weight_cap = c.memory.weight_cap;
    structural_recent_n = c.memory.structural_recent_n;
    structural_recent_delta = c.memory.structural_recent_delta;
    refractory_period = c.memory.refractory_period;
    log_dampening = c.memory.log_dampening;
    mark_max_nodes = c.memory.mark_max_nodes;
  }

-- `none` is the error of a pattern that does not compile.
module _ (compile : String → Option (String → Bool)) where
  abbrev pub key_with : TenantKeyConfig → Option (String → Bool) → TenantKey
  key_with kc pattern = record {
    description = kc.description;
    pattern = pattern;
    pattern_raw = kc.pattern;
    enum = kc.enum;
    required = kc.required;
  }

  abbrev pub compiled : TenantKeyConfig → Option (String → Bool) → Option TenantKey
  compiled kc none = none
  compiled kc (some p) = some (key_with kc (some p))

  -- The pattern is nil where the configuration has none.
  unfoldable pub build_key : TenantKeyConfig → Option TenantKey
  build_key kc =
      if str_eq kc.pattern "" then some (key_with kc none) else compiled kc (compile kc.pattern)

  abbrev pub add_key : String → Option TenantKey → Option (Dict TenantKey) → Option (Dict TenantKey)
  add_key name none rest = none
  add_key name (some k) none = none
  add_key name (some k) (some keys) = some ((name, k) ∷ keys)

  unfoldable pub build_keys : Dict TenantKeyConfig → Option (Dict TenantKey)
  unfolding build_key
  build_keys [] = some []
  build_keys ((name, kc) ∷ keys) = add_key name (build_key kc) (build_keys keys)

  abbrev pub build_schema :
      TenantSchemaConfig → Option (Dict TenantKey) → Option (Option TenantSchema)
  build_schema c none = none
  build_schema c (some keys) =
      some (some (record { description = c.description; keys = keys; one_of = c.one_of }))

  unfoldable pub new_tenant_schema_from_config : TenantSchemaConfig → Option (Option TenantSchema)
  unfolding is_configured build_keys
  new_tenant_schema_from_config c =
      if not (is_configured c) then some none else build_schema c (build_keys c.keys)
