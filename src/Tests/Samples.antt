-- ===== src/Tests/Samples.antt =====
-- Numbers, a database and rows for the runs.
use memmy.Prelude.{
  ℕ, zero, suc, List, ◌∷◌, ◌&&◌, not, str_eq, some, take, length, All, Bool-cases, inl, inr, ◌+◌,
  ◌*◌, ◌^◌, ◌/◌, ◌≡◌, refl, String, true, false, none, [], if◌then◌else◌, arith,
}
use memmy.Prelude.Int.{ℤ, pos, negsuc, pos_part, neg_part, sub_ℕ, int_ltb, ◌+ℤ◌}
use memmy.Float.{Float, IsOrdered}
use memmy.Types.{Node, MemoryEdge, structural}
use memmy.Types.Instant.{unix_ms}
use memmy.Service.Tenant.{is_present}
use memmy.Storage.Messages.{find_message, find_tenant}
use memmy.Storage.Rows.{
  leaves, enters, is_from, PropertyGraph, find_node, is_between, is_incident, matching,
}
use memmy.Storage.Statement
use memmy.Storage.Database.{Database, IsCypher}

abbrev minus : ℤ → ℤ
minus a = sub_ℕ (neg_part a) (pos_part a)

abbrev times : ℤ → ℤ → ℤ
times a b =
    sub_ℕ (pos_part a * pos_part b + neg_part a * neg_part b)
      (pos_part a * neg_part b + neg_part a * pos_part b)

-- Whole numbers in place of `float64`: one is a thousand.
abbrev pub milli : Float
milli = record {
  F = ℤ;
  lt = int_ltb;
  le = λ a b. if int_ltb b a then false else true;
  add = ◌+ℤ◌;
  sub = λ a b. a +ℤ minus b;
  mul = λ a b. sub_ℕ (pos_part (times a b) / 1000) (neg_part (times a b) / 1000);
  div = λ a b. sub_ℕ (pos_part a * 1000 / pos_part b) (neg_part a * 1000 / pos_part b);
  neg = minus;
  nought = pos 0;
  one = pos 1000;
  of_int = λ n. times (pos 1000) n;
  decimal = λ m e. pos (m * 1000 / 10 ^ e);
  seconds = λ d. sub_ℕ (pos_part d / 1000000) (neg_part d / 1000000);
  exp = λ x. pos 900;
  pow = λ x y. x;
  log2 = λ x. x;
  min = λ a b. if int_ltb b a then b else a;
  sqrt = λ x. x;
  narrow = λ x. x;
}

int_irrefl : (a : ℤ) → int_ltb a a ≡ false
int_irrefl (pos n) = ground arith
int_irrefl (negsuc n) = ground arith

int_asymm : (a b : ℤ) → int_ltb a b ≡ true → int_ltb b a ≡ false
int_asymm (pos a) (pos b) h = ground arith
int_asymm (pos a) (negsuc b) h = cc
int_asymm (negsuc a) (pos b) h = refl
int_asymm (negsuc a) (negsuc b) h = ground arith

pub milli-IsOrdered : IsOrdered milli
milli-IsOrdered = record { lt_irrefl = int_irrefl; lt_asymm = int_asymm }

-- The nodes of a tenant that were created at a time or later, in the order of the rows.
abbrev recent : String → ℤ → String → PropertyGraph ℤ → List (Node ℤ) → List String
recent t since m g [] = []
recent t since m g (n ∷ ns) =
    let rest = recent t since m g ns in
    if Statement.has_node milli t n.id g
      && (not (str_eq n.source_msg_id m) && not (int_ltb (unix_ms n.created_at) since))
    then n.id ∷ rest
    else rest

recent-All :
    (t : String) (since : ℤ) (m : String) (k : ℕ) (g : PropertyGraph ℤ) (ns : List (Node ℤ))
    → All (λ i. Statement.has_node milli t i g ≡ true) (take k (recent t since m g ns))
recent-All t since m zero g ns = tt
recent-All t since m (suc k) g [] = tt
recent-All t since m (suc k) g (n ∷ ns) = elim (Bool-cases (Statement.has_node milli t n.id g)) [
  | inl h ↦
      elim (Bool-cases
        (not (str_eq n.source_msg_id m) && not (int_ltb (unix_ms n.created_at) since))) [
          | inl k' ↦ rw (h, k') (h, recent-All t since m k g ns)
          | inr k' ↦ rw (h, k') (recent-All t since m (suc k) g ns)
        ]
  | inr h ↦ rw h (recent-All t since m (suc k) g ns)
]

abbrev live : String → PropertyGraph ℤ → List (Node ℤ) → List (String × ℤ)
live t g [] = []
live t g (n ∷ ns) =
    let rest = live t g ns in
    if str_eq n.tenant_id t && (not n.tombstoned && is_present (g.embedding t n.id))
    then (n.id, pos 900) ∷ rest
    else rest

-- A database whose states are property graphs.
abbrev pub memory : Database milli
memory = record {
  Db = PropertyGraph ℤ;
  view = λ g. g;
  match_node = λ t i g. find_node t i g.nodes;
  merge_node = Statement.merge_node milli;
  set_node = Statement.set_node milli;
  match_incident = λ t i g. matching (is_incident t i) g.rels;
  sum_weights = λ rs. pos 0;
  detach_delete = Statement.detach_delete milli;
  match_rels = λ t a b g. matching (is_between t a b) g.rels;
  delete_rels = Statement.delete_rels milli;
  merge_rel = Statement.merge_rel milli;
  set_rels = Statement.set_rels milli;
  adjust_counters = Statement.adjust milli;
  match_outbound = λ t i g. matching (leaves t i) g.rels;
  match_inbound = λ t i g. matching (enters t i) g.rels;
  match_counters = λ t g. some (g.counters t);
  merge_message = Statement.merge_message milli;
  match_message = λ t i g. find_message t i g.messages;
  delete_message = Statement.delete_message milli;
  merge_tenant = Statement.merge_tenant milli;
  match_tenant = λ i g. find_tenant i g.tenants;
  match_tenants = λ g. g.tenants;
  match_recent = λ t since m k g. take k (recent t since m g g.nodes);
  match_message_nodes = λ t m g. matching (is_from t m) g.nodes;
  match_messages_before = λ t before g. [];
  count_live = λ t g. length (live t g g.nodes);
  set_embedding = Statement.set_embedding milli;
  tombstone = Statement.tombstone milli;
  scan_similar = λ t q k g. take k (live t g g.nodes);
  query_index = λ probe t q k g. take k (take probe (live t g g.nodes));
}

pub memory-IsCypher : IsCypher milli memory
memory-IsCypher = record {
  match_node_lem = λ t i db. refl;
  match_rels_lem = λ t a b db. refl;
  match_incident_lem = λ t i db. refl;
  merge_node_lem = λ n db. refl;
  set_node_lem = λ t i n db. refl;
  detach_delete_lem = λ t i db. refl;
  delete_rels_lem = λ t a b db. refl;
  merge_rel_lem = λ r db. refl;
  set_rels_lem = λ t a b p db. refl;
  adjust_lem = λ t c db. refl;
  match_outbound_lem = λ t i db. refl;
  match_inbound_lem = λ t i db. refl;
  match_counters_lem = λ t db. refl;
  merge_message_lem = λ m db. refl;
  match_message_lem = λ t i db. refl;
  delete_message_lem = λ t i db. refl;
  merge_tenant_lem = λ r db. refl;
  match_tenant_lem = λ i db. refl;
  match_message_nodes_lem = λ t m db. refl;
  match_recent_lem = λ t since m k db. recent-All t since m k db db.nodes;
  set_embedding_lem = λ t i vec dim db. refl;
  tombstone_lem = λ t i db. refl;
}

abbrev pub node : String → ℤ → Node ℤ
node id weight = record {
  id = id;
  tenant_id = "t";
  source_msg_id = "m";
  sentence_span = (0, 1);
  text = [];
  embedding_dim = 2;
  created_at = 0;
  last_touched = 0;
  weight = weight;
  access_count = 0;
  tombstoned = false;
}

abbrev pub edge : String → String → MemoryEdge ℤ
edge from to = record {
  from = from;
  to = to;
  tenant_id = "t";
  kind = structural;
  weight = pos 1000;
  last_touched = 0;
  created_at = 0;
  access_count = 0;
  traverse_count = 0;
}

abbrev pub no_rows : PropertyGraph ℤ
no_rows = record {
  nodes = [];
  rels = [];
  counters = λ t. record {
    node_count = pos 0;
    edge_count = pos 0;
    sum_node_weight = pos 0;
    sum_edge_weight = pos 0;
  };
  messages = [];
  tenants = [];
  embedding = λ t i. none;
}
