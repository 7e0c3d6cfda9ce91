-- ===== src/Transcode/Registry/Invariant.antt =====
-- The invariant of the registry, and the parts of `ensure_job` that keep it.
pub mod Ensuring
pub mod Ending
pub mod Schedules
use stremio_libtorrent_serve.Base.{
  ℕ, suc, ◌<◌, ◌≡◌, refl, ◌⊎◌, inl, inr, ite, Bool, true, false, Option, none, some, List, [], ◌∷◌,
  String, string_key, str_discrete, lookup, insert, erase, contains, add, discard, arith,
  lookup-insert, lookup-erase, IsDict, insert-IsDict, erase-IsDict, contains-add, contains-discard,
  Bool-cases, Option-cases, if◌then◌else◌,
}
use stremio_libtorrent_serve.Transcode.Registry.State.{
  State, is_empty, set_owners, drop_alias, owners_of, forget, is_running,
}
use stremio_libtorrent_serve.Transcode.Registry.Ensure.{
  detach, attach, launch, fresh_dir, start_if, start, acquire, rebind, is_refresh, ensure_locked,
}

pub record Inv (s : State) : Type 0 where
  -- An owner of a workload is an alias of that workload.
  pub honest :
      (k j : String) (o : List String)
      → lookup k s.workload_jobs ≡ some o
      → contains j o ≡ true
      → lookup j s.job_workload ≡ some k
  -- A workload with no owner has no entry.
  pub owned :
      (k : String) (o : List String) → lookup k s.workload_jobs ≡ some o → is_empty o ≡ false
  -- A time is kept exactly for the registered processes.
  pub timed : (k : String) → lookup k s.jobs ≡ none → lookup k s.seen ≡ none
  pub untimed : (k : String) → lookup k s.seen ≡ none → lookup k s.jobs ≡ none
  -- Process numbers are not used twice, so no process serves two workloads.
  pub numbered : (k : String) (p : ℕ) → lookup k s.jobs ≡ some p → p < s.spawned
  pub alone :
      (k k' : String) (p : ℕ) → lookup k s.jobs ≡ some p → lookup k' s.jobs ≡ some p → k ≡ k'
  pub distinct : IsDict s.jobs

pub lookup-set_owners :
    (key q : String) (o : List String) (s : State)
    → lookup q (set_owners key o s).workload_jobs
      ≡ ite (str_discrete q key) (if is_empty o then none else some o) (lookup q s.workload_jobs)
unfolding set_owners
lookup-set_owners key q o s =
    ground (arith, lookup-erase key q s.workload_jobs, lookup-insert key q o s.workload_jobs)

is_empty-add : (a : String) (o : List String) → is_empty (add a o) ≡ false
unfolding is_empty add contains
is_empty-add a [] = refl
is_empty-add a (b ∷ o) = ground arith

module _ (s : State) (v : Inv s) where
  honest-owners_of :
      (k j : String) → contains j (owners_of k s) ≡ true → lookup j s.job_workload ≡ some k
  unfolding owners_of contains
  honest-owners_of k j m = elim (Option-cases (lookup k s.workload_jobs)) [
    | inl e ↦ ground (arith, e)
    | inr (o, e) ↦ v.honest k j o e (rw (e, owners_of) at m)
  ]

  pub forget-Inv : (key : String) → Inv (forget key s)
  unfolding forget
  forget-Inv key = record {
    honest = v.honest;
    owned = v.owned;
    timed = λ k h. ground (arith, lookup-erase key k s.jobs, lookup-erase key k s.seen, v.timed k);
    untimed =
        λ k h. ground (arith, lookup-erase key k s.jobs, lookup-erase key k s.seen, v.untimed k);
    numbered = λ k p h. ground (arith, lookup-erase key k s.jobs, v.numbered k p);
    alone = λ k k' p h h'.
        ground (arith, lookup-erase key k s.jobs, lookup-erase key k' s.jobs, v.alone k k' p);
    distinct = erase-IsDict key s.jobs v.distinct;
  }

  -- An owner may leave a workload together with its alias.
  pub drop_alias-Inv :
      (job key : String) (o : List String)
      → lookup job s.job_workload ≡ some key
      → lookup key s.workload_jobs ≡ some o
      → Inv (drop_alias job (set_owners key (discard job o) s))
  unfolding drop_alias set_owners
  drop_alias-Inv job key o alias own = record {
    honest = λ k j o' h m. ground (
      arith,
      lookup-set_owners key k (discard job o) s,
      lookup-erase job j s.job_workload,
      contains-discard job j o,
      v.honest k j o',
      v.honest key j o own,
    );
    owned = λ k o' h. ground (arith, lookup-set_owners key k (discard job o) s, v.owned k o');
    timed = v.timed;
    untimed = v.untimed;
    numbered = v.numbered;
    alone = v.alone;
    distinct = v.distinct;
  }

  pub attach-Inv :
      (job key : String) (now p : ℕ)
      → lookup key s.jobs ≡ some p
      → ((k : String) → lookup job s.job_workload ≡ some k → k ≡ key)
      → Inv (attach job key now s)
  unfolding attach
  attach-Inv job key now p live only = record {
    honest = λ k j o' h m. ground (
      arith,
      lookup-insert key k (add job (owners_of key s)) s.workload_jobs,
      lookup-insert job j key s.job_workload,
      contains-add job j (owners_of key s),
      v.honest k j o',
      honest-owners_of key j,
      only k,
    );
    owned = λ k o' h. ground (
      arith,
      lookup-insert key k (add job (owners_of key s)) s.workload_jobs,
      is_empty-add job (owners_of key s),
      v.owned k o',
    );
    timed = λ k h. ground (arith, lookup-insert key k now s.seen, v.timed k);
    untimed = λ k h. ground (arith, lookup-insert key k now s.seen, v.untimed k);
    numbered = v.numbered;
    alone = v.alone;
    distinct = v.distinct;
  }

  pub launch-Inv :
      (job key : String) (now : ℕ)
      → ((k : String) → lookup job s.job_workload ≡ some k → k ≡ key)
      → Inv (launch job key now s)
  unfolding launch contains is_empty
  launch-Inv job key now only = record {
    honest = λ k j o' h m. ground (
      arith,
      lookup-insert key k (job ∷ []) s.workload_jobs,
      lookup-insert job j key s.job_workload,
      v.honest k j o',
      only k,
    );
    owned = λ k o' h. ground (arith, lookup-insert key k (job ∷ []) s.workload_jobs, v.owned k o');
    timed = λ k h.
        ground
          (arith, lookup-insert key k now s.seen, lookup-insert key k s.spawned s.jobs, v.timed k);
    untimed = λ k h.
        ground (
          arith,
          lookup-insert key k now s.seen,
          lookup-insert key k s.spawned s.jobs,
          v.untimed k,
        );
    numbered = λ k p h. ground (arith, lookup-insert key k s.spawned s.jobs, v.numbered k p);
    alone = λ k k' p h h'. ground (
      arith,
      lookup-insert key k s.spawned s.jobs,
      lookup-insert key k' s.spawned s.jobs,
      v.alone k k' p,
      v.numbered k p,
      v.numbered k' p,
    );
    distinct = insert-IsDict key s.spawned s.jobs v.distinct;
  }

  -- The host's part of the state may change freely.
  pub host-Inv : (r : List ℕ) (d : List String) → Inv (record s { running = r; dirs = d })
  host-Inv r d = record {
    honest = v.honest;
    owned = v.owned;
    timed = v.timed;
    untimed = v.untimed;
    numbered = v.numbered;
    alone = v.alone;
    distinct = v.distinct;
  }
