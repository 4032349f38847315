-- ===== src/EngineController/References/Records.antt =====
-- Which calls record the engines that refer to repositories, and in which order.
use aitrigram.Base.{String, ◌≡◌, refl, List, [], ◌∷◌, inl, inr, ◌⊎◌, Bool-cases, ◌==◌, eq_iff}
use aitrigram.Base.Results.{ok, err, Result-cases}
use aitrigram.Api.Repository.{ModelRepository}
use aitrigram.Api.Engine.{LlmEngine}
use aitrigram.Cluster.{
  ApiError, is_not_found, Call, Reply, list_engines, get_repository, update_repository_status, Env,
  History, pure, ask, ◌>>=◌,
}
use aitrigram.Cluster.Issues.{Adds, none_added, one_added, Adds-trans, Issues, issues_rules}
use aitrigram.Library.{Library, RetriesOnConflict, Attempts, last, again}
use aitrigram.EngineController.References.{
  referenced_engines, with_references, write_references, references_attempt, update_each,
  with_listed, update_referenced_engines,
}

-- A read of the repository, or a write of the status of a repository as it was read but with the
-- text as the engines that refer to it.
abbrev pub IsRecording : (repo text : String) → Call → Type 0
IsRecording repo text (get_repository name) = name ≡ repo
IsRecording repo text (update_repository_status r) =
    (old : ModelRepository) × (r ≡ with_references text old)
IsRecording repo text _ = ⊥

-- The history of recording a text for a repository ends with a read that was answered by an error, or
-- with one that was answered by a repository: after it the text was written there, unless it stood
-- there already.
abbrev pub IsRecorded : Env → (repo text : String) → History → Type 0
IsRecorded env repo text h =
    (k : History) × (((e : ApiError) × (env.repository (get_repository repo ∷ k) ≡ err e)
        × (h ≡ get_repository repo ∷ k))
      ⊎ ((fresh : ModelRepository) × (env.repository (get_repository repo ∷ k) ≡ ok fresh)
          × (((fresh.status.referenced_engines ≡ text) × (h ≡ get_repository repo ∷ k))
              ⊎ (h
                  ≡ update_repository_status (with_references text fresh)
                    ∷ get_repository repo
                    ∷ k))))

-- Each repository in turn is read, calls that record the engines for it follow, and they are
-- recorded.
pub data Records (env : Env) (engines : List LlmEngine)
    : List String → History → History → Type 0 where
  all_recorded : (h : History) → Records env engines [] h h
  recorded :
      (repo : String) (repos : List String) (h h' : History) {h'' : History}
      → Adds (IsRecording repo (referenced_engines repo engines)) (get_repository repo ∷ h) h'
      → IsRecorded env repo (referenced_engines repo engines) h'
      → Records env engines repos h' h''
      → Records env engines (repo ∷ repos) h h''

-- The engines are listed, and where the list is answered each repository is recorded for them.
pub data Updates (env : Env) (repos : List String) (h : History) : History → Type 0 where
  unlisted :
      (e : ApiError)
      → env.engines (list_engines ∷ h) ≡ err e
      → Updates env repos h (list_engines ∷ h)
  updated :
      (engines : List LlmEngine) {h' : History}
      → env.engines (list_engines ∷ h) ≡ ok engines
      → Records env engines repos (list_engines ∷ h) h'
      → Updates env repos h h'

module _ (repo text : String) where
  write-IsRecording :
      (r : ModelRepository)
      → IsRecording repo text (update_repository_status (with_references text r))
  write-IsRecording r = (r, refl)

  read-IsRecording : IsRecording repo text (get_repository repo)
  read-IsRecording = refl

  write_references-records :
      (reply : Reply ModelRepository) → Issues (IsRecording repo text) (write_references text reply)
  unfolding write_references
  write_references-records (ok r) = search (issues_rules, write-IsRecording)
  write_references-records (err e) = search issues_rules

  Attempts-IsRecording :
      (env : Env) (h : History) {out : Reply (Unit {0}) × History}
      → Attempts (references_attempt repo text) env h out
      → Adds (IsRecording repo text) (get_repository repo ∷ h) out.1
  unfolding references_attempt ◌>>=◌ ask
  Attempts-IsRecording env h (last _) =
      let read = get_repository repo ∷ h in
      (write_references-records (env.repository read)).at env read
  Attempts-IsRecording env h (again _ e rest) =
      let read = get_repository repo ∷ h in
      let first = (write_references-records (env.repository read)).at env read in
      Adds-trans first
        (Adds-trans (one_added _ read-IsRecording none_added) (Attempts-IsRecording env _ rest))

  Attempts-IsRecorded :
      (env : Env) (h : History) {out : Reply (Unit {0}) × History}
      → Attempts (references_attempt repo text) env h out
      → IsRecorded env repo text out.1
  unfolding references_attempt write_references ◌>>=◌ pure ask
  Attempts-IsRecorded env h (again _ e rest) = Attempts-IsRecorded env _ rest
  Attempts-IsRecorded env h (last _) =
      elim (Result-cases (env.repository (get_repository repo ∷ h))) [
        | inl (fresh, there) ↦ elim (Bool-cases (fresh.status.referenced_engines == text)) [
          | inl same ↦ rw (there, same) (h, inr (fresh, there, inl ((eq_iff _ text).0 same, refl)))
          | inr other ↦ rw (there, other) (h, inr (fresh, there, inr refl))
        ]
        | inr (e, missing) ↦ elim (Bool-cases (is_not_found e)) [
          | inl gone ↦ rw (missing, gone) (h, inl (e, missing, refl))
          | inr other ↦ rw (missing, other) (h, inl (e, missing, refl))
        ]
      ]

module _ (lib : Library) (retries : RetriesOnConflict lib) (env : Env) where
  update_each-Records :
      (engines : List LlmEngine) (repos : List String) (h : History)
      → Records env engines repos h (update_each lib engines repos env h).1
  unfolding update_each ◌>>=◌ pure
  update_each-Records engines [] h = all_recorded h
  update_each-Records engines (repo ∷ repos) h =
      let text = referenced_engines repo engines in
      let attempts = retries (references_attempt repo text) env h in
      recorded repo repos h _ (Attempts-IsRecording repo text env h attempts)
        (Attempts-IsRecorded repo text env h attempts) (update_each-Records engines repos _)

  pub update_referenced_engines-Updates :
      (repos : List String) (h : History)
      → Updates env repos h (update_referenced_engines lib repos env h).1
  unfolding update_referenced_engines with_listed ◌>>=◌ pure ask
  update_referenced_engines-Updates repos h = elim (Result-cases (env.engines (list_engines ∷ h))) [
    | inl (engines, e) ↦ rw e (updated engines e (update_each-Records engines repos _))
    | inr (x, e) ↦ rw e (unlisted x e)
  ]
