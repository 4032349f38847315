-- ===== src/EngineController/References/Requests.antt =====
-- Which engines a change of a repository reconciles.
use aitrigram.Base.{String, ◌≡◌, sym, ◌∙◌, List, [], ◌∷◌, Bool, true, arith, any, ◌==◌, concat}
use aitrigram.Api.Engine.{LlmEngine}
use aitrigram.EngineController.References.{engine_key, referencing_engines, requests_of}
use aitrigram.EngineController.References.Names.{
  has_name, is_reference, has_name-referencing_engines,
}

-- A request for an engine of that key.
abbrev pub asks_for : String → String × String → Bool
asks_for key (namespace, name) = concat namespace (concat "/" name) == key

references-requests :
    (key repo : String) (engines : List LlmEngine)
    → any (is_reference key repo) engines ≡ true
    → any (asks_for key) (requests_of repo engines) ≡ true
unfolding requests_of engine_key
references-requests key repo [] h = cc
references-requests key repo (e ∷ es) h = ground (arith, references-requests key repo es)

-- Of the engines that are listed: for every key that the status of a repository is to name, a
-- change of that repository requests the reconciliation of an engine of that key.
pub requests_of-referencing_engines :
    (key repo : String) (engines : List LlmEngine)
    → has_name key (referencing_engines repo engines) ≡ true
    → any (asks_for key) (requests_of repo engines) ≡ true
requests_of-referencing_engines key repo engines h =
    references-requests key repo engines (sym (has_name-referencing_engines key repo engines) ∙ h)
