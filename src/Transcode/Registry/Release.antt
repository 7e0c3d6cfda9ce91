-- ===== src/Transcode/Registry/Release.antt =====
-- `stop`: what the release of a job does to its encoder.
use stremio_libtorrent_serve.Base.{
  ℕ, ◌≡◌, refl, ◌≢◌, true, false, none, some, List, [], ◌∷◌, String, string_key, number_key, lookup,
  contains, discard, arith, lookup-erase, if◌then◌else◌, ◌∙◌, ap,
}
use stremio_libtorrent_serve.Transcode.Registry.State.{
  State, is_running, owners_of, set_owners, drop_alias, is_empty,
}
use stremio_libtorrent_serve.Transcode.Registry.Ending.{
  drop_workload, drop_aliases, release, remove_job_dir,
}
use stremio_libtorrent_serve.Transcode.Registry.Directories.{ok, job_dir}
use stremio_libtorrent_serve.Transcode.Registry.Methods.{stop, stop_released, stop_workload}
use stremio_libtorrent_serve.Transcode.Registry.Invariant.{lookup-set_owners}
use stremio_libtorrent_serve.Transcode.Registry.Cleanup.{remove_job_dir-SameBut, clean_up-Cleaned}

pub is_empty-contains : (a : String) (o : List String) → contains a o ≡ true → is_empty o ≡ false
unfolding contains is_empty
is_empty-contains a [] h = cc
is_empty-contains a (b ∷ o) h = refl

release_owned :
    (job key : String) (o : List String) (s : State)
    → lookup job s.job_workload ≡ some key
    → lookup key s.workload_jobs ≡ some o
    → release job s ≡ (
      set_owners key (discard job o) (drop_alias job s),
      if is_empty (discard job o) then some key else none,
    )
unfolding release
release_owned job key o s alias own = rw (alias, release) (rw (own, release))

stop_valid :
    (job : String) (s : State)
    → job_dir s.resolves job ≡ ok job
    → (stop job s).0 ≡ stop_released (release job s).1 (remove_job_dir job (release job s).0)
unfolding stop
stop_valid job s valid = rw (valid, stop)

stop_last :
    (job key : String) (o : List String) (s : State)
    → job_dir s.resolves job ≡ ok job
    → lookup job s.job_workload ≡ some key
    → lookup key s.workload_jobs ≡ some o
    → is_empty (discard job o) ≡ true
    → (stop job s).0
      ≡ stop_workload key (remove_job_dir job (set_owners key (discard job o) (drop_alias job s)))
unfolding stop_released
stop_last job key o s valid alias own left =
    stop_valid job s valid ∙ rw (release_owned job key o s alias own) (rw left refl)

is_empty-discard :
    (job : String) (o : List String)
    → ((j : String) → contains j o ≡ true → j ≡ job)
    → is_empty (discard job o) ≡ true
unfolding discard contains is_empty
is_empty-discard job [] only = refl
is_empty-discard job (j ∷ o) only =
    ground (arith, only j, is_empty-discard job o (λ i h. only i (ground arith)))

-- What is left after `_stop_workload` for a workload with no owner.
stop_unowned :
    (key : String) (p : ℕ) (s : State)
    → lookup key s.jobs ≡ some p
    → lookup key s.workload_jobs ≡ none
    → let t = stop_workload key s in
      (is_running t p ≡ false)
      × ((q : ℕ) → q ≢ p → is_running t q ≡ is_running s q)
      × (lookup key t.jobs ≡ none)
      × (lookup key t.workload_jobs ≡ none)
      × (lookup key t.seen ≡ none)
      × (t.job_workload ≡ s.job_workload)
unfolding stop_workload drop_workload
stop_unowned key p s live unowned =
    let c = clean_up-Cleaned (drop_workload key s).1 p (drop_workload key s).0 live in
    (
      c.ended,
      λ q ne. c.others q ne ∙ unfold is_running in refl,
      ground (arith, c.jobs, lookup-erase key key s.jobs),
      ground (arith, c.workload_jobs, lookup-erase key key s.workload_jobs),
      ground (arith, c.seen, lookup-erase key key s.seen),
      c.job_workload ∙ unfold owners_of drop_aliases in (rw (unowned, owners_of) refl),
    )

pub stop_final :
    (job key : String) (p : ℕ) (o : List String) (s : State)
    → job_dir s.resolves job ≡ ok job
    → lookup job s.job_workload ≡ some key
    → lookup key s.workload_jobs ≡ some o
    → ((j : String) → contains j o ≡ true → j ≡ job)
    → lookup key s.jobs ≡ some p
    → let t = (stop job s).0 in
      (is_running t p ≡ false)
      × ((q : ℕ) → q ≢ p → is_running t q ≡ is_running s q)
      × (lookup key t.jobs ≡ none)
      × (lookup key t.workload_jobs ≡ none)
      × (lookup key t.seen ≡ none)
      × (lookup job t.job_workload ≡ none)
      × ((j : String) → j ≢ job → lookup j t.job_workload ≡ lookup j s.job_workload)
unfolding set_owners drop_alias
stop_final job key p o s valid alias own only live =
    let e = is_empty-discard job o only in
    let u : State = set_owners key (discard job o) (drop_alias job s) in
    let w = remove_job_dir job u in
    let same = remove_job_dir-SameBut job u in
    let gone : lookup key w.workload_jobs ≡ none =
      ground
        (arith, same.workload_jobs, lookup-set_owners key key (discard job o) (drop_alias job s)) in
    let (ended, others, jobs, owners, seen, aliases) =
      stop_unowned key p w (ground (arith, same.jobs)) gone in
    rw (stop_last job key o s valid alias own e) (
      ended,
      λ q ne. others q ne ∙ unfold is_running in ap (contains q) same.running,
      jobs,
      owners,
      seen,
      ground (arith, aliases, same.job_workload, lookup-erase job job s.job_workload),
      λ j ne. ground (arith, aliases, same.job_workload, lookup-erase job j s.job_workload),
    )
