-- ===== src/Config.antt =====
-- internal/config/config.go: the configuration file and its defaults.
pub mod Env
pub mod Validate
pub mod Build
use memmy.Prelude.{ℕ, ◌*◌, String, Bool, true, false, List, []}
use memmy.Prelude.Int.{ℤ, pos}
use memmy.Prelude.Dict.{Dict}
use memmy.Float.{Float}
use memmy.Chunker.Text.{Text}

pub record TenantKeyConfig : Type 0 where
  pub description : String
  pub pattern : String
  pub enum : List String
  pub required : Bool

pub record TenantSchemaConfig : Type 0 where
  pub description : String
  pub keys : Dict TenantKeyConfig
  pub one_of : List (List String)

pub record TransportConfig : Type 0 where
  pub enabled : Bool
  pub addr : String

pub record ServerConfig : Type 0 where
  pub transports : Dict TransportConfig

pub record Neo4jStorageConfig : Type 0 where
  pub uri : String
  pub user : String
  pub password : Text
  pub database : String
  pub connect_timeout : ℤ

pub record StorageConfig : Type 0 where
  pub backend : String
  pub neo4j : Neo4jStorageConfig

pub record GeminiConfig : Type 0 where
  pub model : String
  pub api_key : Text
  pub dim : ℤ
  pub concurrency : ℤ

pub record FakeEmbedderConfig : Type 0 where
  pub dim : ℤ

pub record EmbedderConfig : Type 0 where
  pub backend : String
  pub gemini : GeminiConfig
  pub fake : FakeEmbedderConfig

pub record VectorIndexConfig : Type 0 where
  pub flat_scan_threshold : ℤ

pub record ScoringConfig (F : Type 0) : Type 0 where
  pub sim_alpha : F
  pub weight_beta : F

pub record DecayConfig (F : Type 0) : Type 0 where
  pub node_lambda : F
  pub edge_structural_lambda : F
  pub edge_co_retrieval_lambda : F
  pub edge_co_traversal_lambda : F

pub record ReinforceConfig (F : Type 0) : Type 0 where
  pub node_delta : F
  pub edge_co_retrieval_base : F
  pub edge_co_traversal_multiplier : F
  pub edge_structural_weight : F
  pub edge_structural_temporal_weight : F

pub record PruneConfig (F : Type 0) : Type 0 where
  pub edge_floor : F
  pub node_floor : F

-- Durations are numbers of nanoseconds.
pub record MemoryConfig (F : Type 0) : Type 0 where
  pub chunk_window_size : ℤ
  pub chunk_stride : ℤ
  pub retrieval_k : ℤ
  pub retrieval_hops : ℤ
  pub retrieval_oversample : ℤ
  pub structural_recent_n : ℤ
  pub structural_recent_delta : ℤ
  pub refractory_period : ℤ
  pub log_dampening : Bool
  pub mark_max_nodes : ℤ
  pub scoring : ScoringConfig F
  pub decay : DecayConfig F
  pub reinforce : ReinforceConfig F
  pub prune : PruneConfig F
  pub weight_cap : F

-- `Config` of this package; the service has one of its own.
pub record FileConfig (F : Type 0) : Type 0 where
  pub server : ServerConfig
  pub storage : StorageConfig
  pub embedder : EmbedderConfig
  pub vector_index : VectorIndexConfig
  pub memory : MemoryConfig F
  pub tenant : TenantSchemaConfig

abbrev pub second : ℕ
second = 1000000000

module _ (f : Float) where
  open f use {F, decimal, one}

  -- `Default()`.
  unfoldable pub default : FileConfig F
  default = record {
    server = record { transports = [] };
    storage = record {
      backend = "neo4j";
      neo4j = record {
        uri = "bolt://localhost:7687";
        user = "neo4j";
        password = [];
        database = "neo4j";
        connect_timeout = pos (10 * second);
      };
    };
    embedder = record {
      backend = "fake";
      gemini = record {
        model = "gemini-embedding-2";
        api_key = [];
        dim = pos 3072;
        concurrency = pos 8;
      };
      fake = record { dim = pos 64 };
    };
    vector_index = record { flat_scan_threshold = pos 5000 };
    memory = record {
      chunk_window_size = pos 3;
      chunk_stride = pos 2;
      retrieval_k = pos 8;
      retrieval_hops = pos 2;
      retrieval_oversample = pos 300;
      structural_recent_n = pos 16;
      structural_recent_delta = pos (5 * 60 * second);
      refractory_period = pos (60 * second);
      log_dampening = true;
      mark_max_nodes = pos 256;
      scoring = record { sim_alpha = decimal 1 0; weight_beta = decimal 5 1 };
      decay = record {
        node_lambda = decimal 80 9;
        edge_structural_lambda = decimal 40 9;
        edge_co_retrieval_lambda = decimal 27 8;
        edge_co_traversal_lambda = decimal 13 8;
      };
      reinforce = record {
        node_delta = decimal 1 0;
        edge_co_retrieval_base = decimal 5 1;
        edge_co_traversal_multiplier = decimal 15 1;
        edge_structural_weight = decimal 1 0;
        edge_structural_temporal_weight = decimal 3 1;
      };
      prune = record { edge_floor = decimal 5 2; node_floor = decimal 1 2 };
      weight_cap = decimal 100 0;
    };
    tenant = record { description = ""; keys = []; one_of = [] };
  }
