-- ===== src/ServiceJob/Deleting.antt =====
-- A run of a service job returns, and removes its service.
use ofelia.Common.{
  ℕ, String, true, ◌≡◌, refl, ap, Option, none, some, List, [], ◌∷◌, ◌++◌, is_some, arith,
}
use ofelia.RunJob.{Answer, answer, parse_bool}
use ofelia.ServiceJob.{
  ServiceJob, Task, Round, tick, ensure_image, create_service, inspect_service, remove_service,
  ServiceError, Swarm, is_over_time, watch_rounds, watch_container, removal_error, delete_service,
  first_error, run, after_inspect,
}
use ofelia.ServiceJob.Watching.{watch_rounds-late}

some-of : {A : Type 0} (o : Option A) → is_some o ≡ true → (a : A) × (o ≡ some a)
some-of none h = ground arith
some-of (some a) h = (a, refl)

watch_container-late :
    (j : ServiceJob) (d : Swarm) (before rounds : List Round) (elapsed : ℕ)
    (tasks : Answer (List Task)) (failed : Option String)
    → d.rounds ≡ before ++ tick elapsed tasks ∷ rounds
    → is_over_time j.max_runtime elapsed ≡ true
    → is_some (after_inspect j d failed) ≡ true
watch_container-late j d before rounds elapsed tasks (some e) split late = refl
watch_container-late j d before rounds elapsed tasks none split late = ground (
  arith,
  watch_rounds-late j.max_runtime before rounds elapsed tasks late,
  ap (watch_rounds j.max_runtime) split,
)

-- A run that makes its service, with a maximal runtime that is over in some round: it returns,
-- whatever the rounds before and after that one. If the service is to be deleted, the removal of
-- the service is its last call; the error is that of the watch, and if there is none, that of the
-- removal, unless the service was not found.
pub run-returns :
    (j : ServiceJob) (d : Swarm) (id : String) (before rounds : List Round) (elapsed : ℕ)
    (tasks : Answer (List Task))
    → d.image_error ≡ none
    → d.prepare_error ≡ none
    → d.created ≡ answer id
    → parse_bool j.delete ≡ true
    → d.rounds ≡ before ++ tick elapsed tasks ∷ rounds
    → is_over_time j.max_runtime elapsed ≡ true
    → (err : Option ServiceError) × (watch_container j d ≡ some err)
      × (run j d
          ≡ some (record {
            calls =
                ensure_image j.image ∷ create_service ∷ inspect_service id ∷ remove_service id ∷ [];
            error = first_error err (removal_error d.remove_error);
          }))
unfolding run watch_container delete_service
run-returns j d id before rounds elapsed tasks pulled prepared made del split late =
    let (err, e) =
      some-of (after_inspect j d d.inspect_error)
        (watch_container-late j d before rounds elapsed tasks d.inspect_error split late) in
    (err, e, ground (arith, e))
