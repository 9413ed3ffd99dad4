-- ===== src/Scheduler/Table.antt =====
-- A table of names in the place of go-cron, for the examples: it has what go-cron documents.
use ofelia.Common.{
  ℕ, suc, ◌+◌, ◌≤◌, String, true, ◌≡◌, ◌≢◌, refl, ap, Option, none, some, List, [], ◌∷◌,
  if◌then◌else◌, is_some, ◌is◌, is_iff, arith, length, ◌||◌,
}
use ofelia.Job.{GoError, other}
use ofelia.Scheduler.GoCron.{Cron, Documented, EntryAdded, refused, entered}

-- Names with IDs. The schedule "@never" is refused. The one tag of an entry is its name.
abbrev pub Table : Type 0
Table = List (String × ℕ)

abbrev pub entry : String → Table → Option ℕ
entry n [] = none
entry n ((m, id) ∷ c) = if n is m then some id else entry n c

abbrev pub total : Table → ℕ
total [] = 0
total ((m, id) ∷ c) = id + total c

abbrev pub without : String → Table → Table
without n [] = []
without n ((m, id) ∷ c) = if m is n then without n c else (m, id) ∷ without n c

abbrev pub answer : String → Table → Table × Option GoError
answer n c = (c, if is_some (entry n c) then none else some (other "entry not found"))

abbrev pub tagged : Option ℕ → List ℕ
tagged none = []
tagged (some id) = id ∷ []

abbrev pub table_add : String → String → Table → Table × EntryAdded
table_add schedule n c =
    if is_some (entry n c) || schedule is "@never"
    then (c, refused (other "duplicate name or bad schedule"))
    else ((n, suc (total c)) ∷ c, entered (suc (total c)))

abbrev pub table : Cron Table
table = record {
  add_job = λ schedule j n tags now c. table_add schedule n c;
  remove_by_name = without;
  entries_by_tag = λ tag c. tagged (entry tag c);
  remove_by_tag = λ tag c. (without tag c, length (tagged (entry tag c)));
  update_entry_job_by_name = λ n schedule j c. answer n c;
  pause_entry_by_name = answer;
  resume_entry_by_name = answer;
  trigger_entry_by_name = answer;
  add_dependency_by_name = λ e c. (c, none);
  start = λ c. c;
  stop_with_timeout = λ timeout c. (c, true);
  stop_and_wait = λ c. c;
}

entry-total : (n : String) (c : Table) (id : ℕ) → entry n c ≡ some id → id ≤ total c
entry-total n [] id h = ground arith
entry-total n ((m, x) ∷ c) id h = ground (arith, entry-total n c id)

entry-without :
    (n m : String) (c : Table) → entry m (without n c) ≡ (if m is n then none else entry m c)
entry-without n m [] = ground arith
entry-without n m ((k, id) ∷ c) =
    ground (arith, entry-without n m c, is_iff k n, is_iff m k, is_iff m n)

table_add-free :
    (schedule n : String) (c c' : Table) (id : ℕ)
    → table_add schedule n c ≡ (c', entered id)
    → entry n c ≡ none
table_add-free schedule n c c' id h = ground arith

table_add-added :
    (schedule n : String) (c c' : Table) (id : ℕ)
    → table_add schedule n c ≡ (c', entered id)
    → (m : String) → entry m c' ≡ (if m is n then some id else entry m c)
table_add-added schedule n c c' id h m =
    ground (arith, ap (λ (o : Table × EntryAdded). entry m o.0) h)

table_add-fresh :
    (schedule n : String) (c c' : Table) (id : ℕ)
    → table_add schedule n c ≡ (c', entered id)
    → (m : String) → entry m c ≢ some id
table_add-fresh schedule n c c' id h m = ground (arith, entry-total m c id)

table_add-unadded :
    (schedule n : String) (c c' : Table) (e : GoError)
    → table_add schedule n c ≡ (c', refused e)
    → (m : String) → entry m c' ≡ entry m c
table_add-unadded schedule n c c' e h m =
    ground (arith, ap (λ (o : Table × EntryAdded). entry m o.0) h)

pub table-Documented : Documented Table table entry
table-Documented = record {
  free = λ schedule j n tags now c c' id named h. table_add-free schedule n c c' id h;
  fresh = λ schedule j n tags now c c' id named h. table_add-fresh schedule n c c' id h;
  added = λ schedule j n tags now c c' id named h. table_add-added schedule n c c' id h;
  unadded = λ schedule j n tags now c c' e h. table_add-unadded schedule n c c' e h;
  removed = λ n m c. entry-without n m c;
  updated = λ n schedule m j c. refl;
  paused = λ n m c. refl;
  resumed = λ n m c. refl;
  triggered = λ n m c. refl;
  wired = λ e m c. refl;
  started = λ m c. refl;
  stopped = λ timeout m c. refl;
  awaited = λ m c. refl;
}
