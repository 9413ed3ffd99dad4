-- ===== src/RunJob/Outcome.antt =====
-- Runs that keep their hands off a container: one that was there before, and one that could not be
-- connected to its networks.
use ofelia.Common.{
  String, Bool, true, false, ◌||◌, ◌≡◌, refl, none, some, List, [], ◌∷◌, ◌++◌, ◌is◌, arith,
}
use ofelia.RunJob.{
  RunJob, DockerCall, create_container, stop_container, remove_container, connecting_network,
  Answer, answer, failure, Docker, connect_networks, found_networks, connect_created, after_create,
  after_environment, create_or_inspect_container, makes_container, start_and_wait, run, name_of,
}

unfoldable pub any_call : (DockerCall → Bool) → List DockerCall → Bool
any_call test [] = false
any_call test (c ∷ calls) = test c || any_call test calls

abbrev pub is_creation : DockerCall → Bool
is_creation (create_container name) = true
is_creation _ = false

-- Whether the call is to end or to remove a container.
abbrev pub is_removal : DockerCall → Bool
is_removal (stop_container id) = true
is_removal (remove_container id) = true
is_removal _ = false

any_call-append :
    (test : DockerCall → Bool) (xs ys : List DockerCall)
    → any_call test (xs ++ ys) ≡ (any_call test xs || any_call test ys)
unfolding any_call
any_call-append test [] ys = refl
any_call-append test (x ∷ xs) ys = ground (arith, any_call-append test xs ys)

connect_networks-removal :
    (d : Docker) (id : String) (networks : List String)
    → any_call is_removal (connect_networks d id networks).calls ≡ false
unfolding any_call connect_networks
connect_networks-removal d id [] = refl
connect_networks-removal d id (n ∷ networks) =
    ground (arith, connect_networks-removal d id networks)

connect_created-removal :
    (d : Docker) (j : RunJob) (id : String)
    → any_call is_removal (connect_created d j id).calls ≡ false
unfolding any_call connect_created
connect_created-removal d j id =
    ground (arith, connect_networks-removal d id (found_networks d.networks))

created-removal :
    (d : Docker) (j : RunJob) (a : Answer String) (name t : String)
    → (after_create d j a).ran.error ≡ some (connecting_network t)
    → (any_call is_creation (create_container name ∷ (after_create d j a).ran.calls) ≡ true)
      × (any_call is_removal (create_container name ∷ (after_create d j a).ran.calls) ≡ false)
unfolding any_call
created-removal d j (failure f) name t h = ground arith
created-removal d j (answer id) name t h = (refl, connect_created-removal d j id)

environment-removal :
    (d : Docker) (j : RunJob) (env : Answer (List String)) (t : String)
    → (after_environment d j env).ran.error ≡ some (connecting_network t)
    → (any_call is_creation (after_environment d j env).ran.calls ≡ true)
      × (any_call is_removal (after_environment d j env).ran.calls ≡ false)
environment-removal d j (failure f) t h = ground arith
environment-removal d j (answer env) t h =
    created-removal d j d.created (name_of j j.container_name) t h

-- A run whose new container cannot be connected to one of its networks fails with that error, and
-- leaves the container: it has made a container, and neither stops nor removes one.
pub run-connect_fails :
    (d : Docker) (j : RunJob) (t : String)
    → makes_container j ≡ true
    → d.image_error ≡ none
    → (create_or_inspect_container d j).ran.error ≡ some (connecting_network t)
    → ((run d j).error ≡ some (connecting_network t))
      × (any_call is_creation (run d j).calls ≡ true)
      × (any_call is_removal (run d j).calls ≡ false)
unfolding run create_or_inspect_container any_call
run-connect_fails d j t makes pulled fails = ground (arith, environment-removal d j d.environment t)

-- A job that names a container: whatever happens, the maximal runtime and the end of the context
-- included, no container is made, stopped or removed.
pub run-existing :
    (d : Docker) (j : RunJob)
    → (j.container is "") ≡ false
    → (any_call is_creation (run d j).calls ≡ false) × (any_call is_removal (run d j).calls ≡ false)
unfolding run create_or_inspect_container any_call start_and_wait
run-existing d j there = ground arith
