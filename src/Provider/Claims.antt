-- ===== src/Provider/Claims.antt =====
-- The claim of a repository: `CreateStorage` and `Cleanup` on every answer.
use aitrigram.Base.{◌≡◌, refl, String, ◌∷◌, true, false, bytes, arith, ◌⊎◌, inl, inr, Bool-cases}
use aitrigram.Base.Results.{ok, err, Result-cases}
use aitrigram.Cluster.{
  ApiError, is_not_found, get_claim, create_claim, update_claim, delete_claim, Env, History, pure,
  ask, ◌>>=◌,
}
use aitrigram.Cluster.Objects.{PersistentVolumeClaim}
use aitrigram.Library.{Library}
use aitrigram.Provider.{
  StorageClassProvider, create_failed, check_failed, delete_failed, finalizer_failed,
  storage_protection_finalizer, validate_config, claim_of, create_storage, cleanup,
}

module _ (lib : Library) (p : StorageClassProvider) (namespace : String) (env : Env)
    (h : History) where
  validated-parses : validate_config lib p ≡ ok tt → lib.parses p.storage_size ≡ true
  unfolding validate_config
  validated-parses valid = ground arith

  -- The history once the claim was read, and once it was created.
  abbrev pub after_read : History
  after_read = get_claim namespace (bytes p.pvc_name) ∷ h

  abbrev pub after_creation : History
  after_creation = create_claim (claim_of lib p namespace) ∷ after_read

  creation-cases :
      (e : ApiError)
      → validate_config lib p ≡ ok tt
      → env.claim after_read ≡ err e
      → is_not_found e ≡ true
      → let run = create_storage lib p namespace env h in
        ((env.written after_creation ≡ ok tt) × (run ≡ (ok tt, after_creation)))
        ⊎ ((f : ApiError) × (env.written after_creation ≡ err f)
            × (run ≡ (err (create_failed f), after_creation)))
  unfolding create_storage ◌>>=◌ pure ask
  creation-cases e valid missing gone =
      let parses = validated-parses valid in
      elim (Result-cases (env.written after_creation)) [
        | inl (u, written) ↦ inl (written, rw (parses, missing, gone, written) refl)
        | inr (f, lost) ↦ inr (f, lost, rw (parses, missing, gone, lost) refl)
      ]

  -- For a provider that passed its validation, `create_storage` comes to one of four ends: a claim
  -- that is there is left as it is, which is a success; a claim that is missing is created, which is
  -- a success; its creation fails, which is an error; or the claim could not be read for another
  -- reason, which is an error with nothing written. It does not panic.
  pub create_storage_validated :
      validate_config lib p ≡ ok tt
      → let run = create_storage lib p namespace env h in
        ((claim : PersistentVolumeClaim) × (env.claim after_read ≡ ok claim)
          × (run ≡ (ok tt, after_read)))
        ⊎ ((e : ApiError) × (env.claim after_read ≡ err e)
            × (is_not_found e ≡ true)
            × (((env.written after_creation ≡ ok tt) × (run ≡ (ok tt, after_creation)))
                ⊎ ((f : ApiError) × (env.written after_creation ≡ err f)
                    × (run ≡ (err (create_failed f), after_creation)))))
        ⊎ ((e : ApiError) × (env.claim after_read ≡ err e)
            × (is_not_found e ≡ false)
            × (run ≡ (err (check_failed e), after_read)))
  unfolding create_storage ◌>>=◌ pure ask
  create_storage_validated valid =
      let parses = validated-parses valid in
      elim (Result-cases (env.claim after_read)) [
        | inl (claim, found) ↦ inl (claim, found, rw (parses, found) refl)
        | inr (e, lost) ↦ elim (Bool-cases (is_not_found e)) [
          | inl gone ↦ inr (inl (e, lost, gone, creation-cases e valid lost gone))
          | inr other ↦ inr (inr (e, lost, other, rw (parses, lost, other) refl))
        ]
      ]

  -- The history once the claim's finalizer was released, and once it was deleted.
  abbrev pub after_release : PersistentVolumeClaim → History
  after_release claim =
      update_claim (record claim {
        finalizers = lib.remove_finalizer claim.finalizers storage_protection_finalizer;
      })
      ∷ after_read

  abbrev pub after_deletion : PersistentVolumeClaim → History
  after_deletion claim = delete_claim namespace (bytes p.pvc_name) ∷ after_release claim

  deletion-cases :
      (claim : PersistentVolumeClaim)
      → env.claim after_read ≡ ok claim
      → env.written (after_release claim) ≡ ok tt
      → let run = cleanup lib p namespace env h in
        (run.1 ≡ after_deletion claim)
        × ((run.0 ≡ ok tt)
            ⊎ ((e : ApiError) × (env.written (after_deletion claim) ≡ err e)
                × (is_not_found e ≡ false)
                × (run.0 ≡ err (delete_failed e))))
  unfolding cleanup ◌>>=◌ pure ask
  deletion-cases claim found released = elim (Result-cases (env.written (after_deletion claim))) [
    | inl (u, written) ↦ rw (found, released, written) (refl, inl refl)
    | inr (e, lost) ↦ elim (Bool-cases (is_not_found e)) [
      | inl gone ↦ rw (found, released, lost, gone) (refl, inl refl)
      | inr other ↦ rw (found, released, lost, other) (refl, inr (e, refl, other, refl))
    ]
  ]

  -- `cleanup` of a claim that can be read releases its finalizer first. If that write fails, the
  -- claim is not deleted and the error is returned. Else the claim is deleted, and the result is a
  -- success unless the deletion is answered by another error than not found.
  pub cleanup_releases :
      (claim : PersistentVolumeClaim)
      → env.claim after_read ≡ ok claim
      → let run = cleanup lib p namespace env h in
        ((e : ApiError) × (env.written (after_release claim) ≡ err e)
          × (run ≡ (err (finalizer_failed e), after_release claim)))
        ⊎ ((env.written (after_release claim) ≡ ok tt)
            × (run.1 ≡ after_deletion claim)
            × ((run.0 ≡ ok tt)
                ⊎ ((e : ApiError) × (env.written (after_deletion claim) ≡ err e)
                    × (is_not_found e ≡ false)
                    × (run.0 ≡ err (delete_failed e)))))
  unfolding cleanup ◌>>=◌ pure ask
  cleanup_releases claim found = elim (Result-cases (env.written (after_release claim))) [
    | inl (u, released) ↦
        let (calls, outcome) = deletion-cases claim found released in inr (released, calls, outcome)
    | inr (e, lost) ↦ inl (e, lost, rw (found, lost) refl)
  ]
