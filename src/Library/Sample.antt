-- ===== src/Library/Sample.antt =====
-- A library that keeps to the documented behaviour, for the tests: conditions and finalizers are kept
-- in lists, an action is tried once, and every text but the empty one is a quantity.
use aitrigram.Base.{
  String, ◌≡◌, refl, List, [], ◌∷◌, ◌++◌, false, not, Option, none, some, any, arith, eq_iff,
  if◌then◌else◌, ◌==◌, is_blank,
}
use aitrigram.Base.Results.{ok}
use aitrigram.Api.{Condition}
use aitrigram.Library.{Library, SetsConditions, Attempts, RetriesOnConflict}
use aitrigram.Cluster.Objects.{Job}
use aitrigram.Cluster.Workloads.{config_map, Deployment, Service}
use aitrigram.Api.Engine.{ResourceRequirements}

abbrev set_condition_in : List Condition → Condition → List Condition
set_condition_in [] c = c ∷ []
set_condition_in (d ∷ ds) c = if d.type == c.type then c ∷ ds else d ∷ set_condition_in ds c

abbrev find_condition_in : List Condition → String → Option Condition
find_condition_in [] type = none
find_condition_in (d ∷ ds) type = if d.type == type then some d else find_condition_in ds type

abbrev remove_from : List String → String → List String
remove_from [] x = []
remove_from (y ∷ ys) x = let rest = remove_from ys x in if y == x then rest else y ∷ rest

abbrev pub blank_job : Job
blank_job = record {
  name = [];
  namespace = "";
  labels = [];
  template_labels = [];
  image = "";
  args = [];
  env = [];
  volume_mounts = [];
  volumes = [];
  node_selector = [];
  node_affinity = none;
  owner = "";
  succeeded = 0;
  failed = 0;
}

abbrev no_resources : ResourceRequirements
no_resources = record { limits = []; requests = [] }

abbrev pub blank_deployment : Deployment
blank_deployment = record {
  name = [];
  namespace = "";
  owner = "";
  labels = [];
  selector = [];
  template_labels = [];
  replicas = none;
  pod = record {
    container = record {
      image = "";
      args = [];
      port = 8000;
      env = [];
      resources = no_resources;
      mounts = [];
    };
    volumes = record { name = "vllm-config"; source = config_map "placeholder" } ∷ [];
    node_selector = [];
    tolerations = [];
    host_ipc = false;
  };
  ready_replicas = 0;
}

abbrev pub blank_service : Service
blank_service = record {
  name = [];
  namespace = "";
  owner = "";
  labels = [];
  selector = [];
  port = 8080;
  target_port = 8000;
}

abbrev pub sample : Library
sample = record {
  set_status_condition = set_condition_in;
  find_status_condition = find_condition_in;
  contains_finalizer = λ xs x. any (λ y. y == x) xs;
  add_finalizer = λ xs x. xs ++ (x ∷ []);
  remove_finalizer = remove_from;
  set_controller_reference = λ repo job. ok (record job { owner = repo.name });
  deep_equal = λ s t. false;
  retry_on_conflict = λ m. m;
  parses = λ s. not (is_blank s);
  download_job_manifest = λ origin. ok blank_job;
  script = λ origin file. ok "run";
  own = λ engine m. ok m;
  object_kinds = λ m. ok tt;
  convert = λ m. ok tt;
  deep_equal_engine = λ s t. false;
  deployment_manifest = λ engine_type. ok blank_deployment;
  service_manifest = λ engine_type. ok blank_service;
  syntax = record { parse_float = λ t. none; unmarshal = λ t. none };
  marshal = λ fs. some [];
  describe = λ e. "error";
}

find_set :
    (cs : List Condition) (c : Condition) (type : String)
    → find_condition_in (set_condition_in cs c) type
      ≡ (if c.type == type then some c else find_condition_in cs type)
find_set [] c type = refl
find_set (d ∷ ds) c type =
    ground (arith, eq_iff d.type c.type, eq_iff d.type type, eq_iff c.type type, find_set ds c type)

pub sample-SetsConditions : SetsConditions sample
sample-SetsConditions = record {
  find_set_same = λ cs c. ground (arith, find_set cs c c.type, eq_iff c.type c.type);
  find_set_other = λ cs c type ne. ground (arith, find_set cs c type, eq_iff c.type type);
}

pub sample-RetriesOnConflict : RetriesOnConflict sample
sample-RetriesOnConflict m env h = Attempts.last h
