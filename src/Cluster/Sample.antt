-- ===== src/Cluster/Sample.antt =====
-- A cluster in which nothing exists and every write succeeds, for the tests.
use aitrigram.Base.{[]}
use aitrigram.Base.Results.{ok, err}
use aitrigram.Cluster.{not_found, Env}

abbrev pub bare : Env
bare = record {
  repository = λ h. err not_found;
  written = λ h. ok tt;
  engines = λ h. ok [];
  storage_classes = λ h. ok [];
  jobs = λ h. ok [];
  job = λ h. err not_found;
  claim = λ h. err not_found;
  volume = λ h. err not_found;
  engine_volume = λ h. err not_found;
  engine = λ h. err not_found;
  node = λ h. err not_found;
  nodes = λ h. ok [];
  deployment = λ h. err not_found;
}
