-- ===== src/JobAdapter.antt =====
-- internal/controller/component/job_adapters.go: a job's manifest made to measure for a repository.
use aitrigram.Base.{
  String, List, [], ◌∷◌, ◌++◌, map, Option, none, some, if◌then◌else◌, ◌==◌, Bytes, Map, insert,
  is_blank, is_empty,
}
use aitrigram.Base.Results.{Result, ok, ◌>>=◌}
use aitrigram.Api.Repository.{ModelRepository, ModelSource, RevisionReference, hugging_face, ollama}
use aitrigram.Api.Engine.{EnvVar, value, secret_key}
use aitrigram.Names.Jobs.{JobType, download, cleanup}
use aitrigram.Cluster.{ApiError}
use aitrigram.Cluster.Objects.{Job}
use aitrigram.Library.{Library}
use aitrigram.Provider.{
  StorageClassProvider, default_model_storage_path, prepare_download_volume, get_node_affinity,
}
use aitrigram.Storage.Backend.{NodeAffinity}

pub record JobContext : Type 0 where
  pub repository : ModelRepository
  pub provider : StorageClassProvider
  pub revision_ref : Option RevisionReference
  pub job_name : Bytes
  pub namespace : String
  pub custom_image : String
  pub custom_script : String

abbrev pub repository_label : String
repository_label = "modelrepository.aitrigram.cliver-project.github.io/name"

abbrev pick : JobType → String → String → String
pick download d c = d
pick cleanup d c = c

-- The script's file, "" for another origin, and the mount path of the models.
unfoldable pub get_origin_config : String → JobType → ModelRepository → String × String
get_origin_config origin t repo =
    let path = repo.spec.storage.mount_path in
    (
      if origin == hugging_face
          then pick t "download.py" "cleanup.py"
          else if origin == ollama
          then pick t "download.sh" "cleanup.sh"
          else "",
      if is_blank path then default_model_storage_path else path,
    )

abbrev plain : String → String → EnvVar
plain name v = record { name = name; source = value v }

hugging_face_token : ModelSource → List EnvVar
hugging_face_token source =
    let key =
      if is_blank source.hf_token_secret_key then "HFToken" else source.hf_token_secret_key in
    if is_blank source.hf_token_secret
    then []
    else record { name = "HF_TOKEN"; source = secret_key source.hf_token_secret key } ∷ []

origin_environment : String → String → ModelSource → List EnvVar
origin_environment origin mount_path source =
    if origin == hugging_face
    then plain "HF_HOME" mount_path ∷ hugging_face_token source
    else if origin == ollama
    then plain "HOME" mount_path
      ∷ plain "OLLAMA_HOME" mount_path
      ∷ plain "OLLAMA_MODELS" mount_path
      ∷ []
    else []

abbrev of_param : String × String → EnvVar
of_param (k, v) = plain k v

-- The parameters follow in the order in which the map is iterated.
unfoldable pub build_job_environment : String → Map String → String → ModelSource → List EnvVar
unfolding origin_environment hugging_face_token
build_job_environment origin params mount_path source =
    origin_environment origin mount_path source ++ map of_param params

revision_param : Option RevisionReference → Map String → Map String
revision_param none params = params
revision_param (some revision) params = insert "REVISION_ID" revision.ref params

job_params : JobContext → Map String
job_params ctx = revision_param ctx.revision_ref (
    ("MODEL_ID", ctx.repository.spec.source.model_id)
    ∷ ("MODEL_NAME", ctx.repository.spec.model_name)
    ∷ ("MOUNT_PATH", ctx.provider.mount_path)
    ∷ [])

chosen_script : Library → JobContext → String → Result ApiError String
chosen_script lib ctx file =
    if is_blank ctx.custom_script
    then lib.script ctx.repository.spec.source.origin file
    else ok ctx.custom_script

or_affinity : NodeAffinity → NodeAffinity → NodeAffinity
or_affinity none template = template
or_affinity (some terms) template = some terms

adapted : JobContext → Job → String → String → Job
adapted ctx job script model_path =
    let source = ctx.repository.spec.source in
    let (volume, mount) = prepare_download_volume ctx.provider in
    record job {
      name = ctx.job_name;
      namespace = ctx.namespace;
      labels = insert repository_label ctx.repository.name job.labels;
      template_labels = insert repository_label ctx.repository.name job.template_labels;
      image = if is_blank ctx.custom_image then job.image else ctx.custom_image;
      args = "-c" ∷ script ∷ [];
      env = build_job_environment source.origin (job_params ctx) model_path source;
      volume_mounts = mount ∷ [];
      volumes = volume ∷ [];
      node_selector =
          if is_empty ctx.repository.spec.node_selector
          then job.node_selector
          else ctx.repository.spec.node_selector;
      node_affinity = or_affinity (get_node_affinity ctx.provider) job.node_affinity;
    }

unfoldable pub adapt_model_repository_job :
    Library → JobContext → Job → JobType → Result ApiError Job
unfolding adapted chosen_script job_params revision_param or_affinity get_origin_config
adapt_model_repository_job lib ctx job t = do
  let (script_file, model_path) =
      get_origin_config ctx.repository.spec.source.origin t ctx.repository
  script ← chosen_script lib ctx script_file
  ok (adapted ctx job script model_path)
