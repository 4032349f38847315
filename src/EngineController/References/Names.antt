-- ===== src/EngineController/References/Names.antt =====
-- The engines that a repository's status names.
use aitrigram.Base.{
  String, ◌≡◌, refl, List, [], ◌∷◌, Bool, ◌&&◌, ◌||◌, not, arith, eq_iff, any, ◌==◌,
}
use aitrigram.Api.Engine.{LlmEngine}
use aitrigram.RepositoryController.Deletion.{refers_to}
use aitrigram.EngineController.References.{engine_key, insert_name, referencing_engines}

abbrev pub has_name : String → List String → Bool
has_name s names = any (λ (t : String). t == s) names

has_name-insert_name :
    (s t : String) (names : List String)
    → has_name s (insert_name t names) ≡ (t == s || has_name s names)
unfolding insert_name
has_name-insert_name s t [] = refl
has_name-insert_name s t (u ∷ names) =
    ground (arith, eq_iff t u, eq_iff t s, eq_iff u s, has_name-insert_name s t names)

-- The engine stays, refers to the repository and has that key.
abbrev pub is_reference : (key repo : String) → LlmEngine → Bool
is_reference key repo e = not e.deleting && refers_to repo e && engine_key e == key

-- A key is among those that a repository's status lists exactly if some engine of that key refers to
-- the repository and is not being deleted.
pub has_name-referencing_engines :
    (key repo : String) (engines : List LlmEngine)
    → has_name key (referencing_engines repo engines) ≡ any (is_reference key repo) engines
unfolding referencing_engines
has_name-referencing_engines key repo [] = refl
has_name-referencing_engines key repo (e ∷ es) = ground (
  arith,
  has_name-referencing_engines key repo es,
  has_name-insert_name key (engine_key e) (referencing_engines repo es),
)
