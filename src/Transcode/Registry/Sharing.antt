-- ===== src/Transcode/Registry/Sharing.antt =====
-- What a client gets from `ensure_job`: one live encoder for each workload, shared by its jobs.
use stremio_libtorrent_serve.Base.{
  ℕ, ◌∙◌, ◌≡◌, refl, ◌≢◌, ◌⊎◌, inl, inr, if_neg, true, false, none, some, String, string_key,
  str_discrete, number_key, lookup, contains, add, discard, arith, lookup-insert, contains-add,
  Bool-cases, Option-cases,
}
use stremio_libtorrent_serve.Transcode.Registry.State.{
  State, is_running, live_at, owners_of, forget, set_owners, drop_alias,
}
use stremio_libtorrent_serve.Transcode.Registry.Ensure.{
  detach, attach, acquire, rebind, is_refresh, ensure_locked,
}
use stremio_libtorrent_serve.Transcode.Registry.Invariant.{lookup-set_owners}
use stremio_libtorrent_serve.Transcode.Registry.Invariant.Ensuring.{is_refresh-live}

-- The state after `ensure_job` has served `job` with `key` at `now`.
pub record Serves (job key : String) (now : ℕ) (s : State) : Type 0 where
  pub process : ℕ
  pub aliased : lookup job s.job_workload ≡ some key
  pub registered : lookup key s.jobs ≡ some process
  pub runs : is_running s process ≡ true
  pub seen_now : lookup key s.seen ≡ some now

-- A workload that stays registered through a step, with all owners but `job` itself.
record Keeps (job key : String) (p : ℕ) (s t : State) : Type 0 where
  pub process : lookup key t.jobs ≡ some p
  pub running : t.running ≡ s.running
  pub spawned : t.spawned ≡ s.spawned
  pub owners : (j : String) → j ≢ job → contains j (owners_of key t) ≡ contains j (owners_of key s)

detach-Keeps :
    (job key old : String) (p : ℕ) (s : State)
    → lookup key s.jobs ≡ some p
    → old ≢ key
    → Keeps job key p s (detach job old s).0
unfolding detach drop_alias owners_of
detach-Keeps job key old p s live ne = elim (Option-cases (lookup old s.workload_jobs)) [
  | inl e ↦
      rw (e, detach)
        (record { process = live; running = refl; spawned = refl; owners = λ j n. refl })
  | inr (o, e) ↦
      rw (e, detach)
        (unfold set_owners owners_of in
          record {
            process = live;
            running = refl;
            spawned = refl;
            owners = λ j n. ground (arith, lookup-set_owners old key (discard job o) s);
          })
]

rebind-Keeps :
    (job key : String) (p : ℕ) (s : State)
    → lookup key s.jobs ≡ some p
    → is_running s p ≡ true
    → is_refresh job key s ≡ false
    → Keeps job key p s (rebind job key s).0
unfolding rebind is_refresh live_at
rebind-Keeps job key p s live run e = elim (Option-cases (lookup job s.job_workload)) [
  | inl a ↦
      rw (a, rebind)
        (record { process = live; running = refl; spawned = refl; owners = λ j n. refl })
  | inr (old, a) ↦
      rw (a, rebind)
        (elim (str_discrete old key) [
          | yes q ↦ absurd (ground arith)
          | no q ↦
              rw (if_neg _ q (forget key s, none) (detach job old s))
                (detach-Keeps job key old p s live q)
        ])
]

owners_of-attach :
    (job key : String) (now : ℕ) (s : State)
    → owners_of key (attach job key now s) ≡ add job (owners_of key s)
unfolding owners_of attach
owners_of-attach job key now s =
    ground (arith, lookup-insert key key (add job (owners_of key s)) s.workload_jobs)

acquire-Keeps :
    (job key : String) (now p : ℕ) (s : State)
    → lookup key s.jobs ≡ some p
    → is_running s p ≡ true
    → Keeps job key p s (acquire job key now s).0
      × ((acquire job key now s).1 ≡ true)
      × (contains job (owners_of key (acquire job key now s).0) ≡ true)
unfolding acquire
acquire-Keeps job key now p s live run = rw (live, acquire) (rw run (attached, refl, owner))
  where
    attached : Keeps job key p s (attach job key now s)
    attached =
        unfold attach in
        record {
          process = live;
          running = refl;
          spawned = refl;
          owners = λ j n.
              ground (arith, owners_of-attach job key now s, contains-add job j (owners_of key s));
        }

    owner : contains job (owners_of key (attach job key now s)) ≡ true
    owner = ground (arith, owners_of-attach job key now s, contains-add job job (owners_of key s))

pub ensure_locked-shares :
    (job key : String) (now p : ℕ) (s : State)
    → lookup key s.jobs ≡ some p
    → is_running s p ≡ true
    → let b = ensure_locked job key now s in
      (b.started ≡ true)
      × (lookup key b.state.jobs ≡ some p)
      × (b.state.running ≡ s.running)
      × (b.state.spawned ≡ s.spawned)
      × ((j : String) → j ≢ job → contains j (owners_of key b.state) ≡ contains j (owners_of key s))
      × ((contains job (owners_of key b.state) ≡ true) ⊎ (lookup job s.job_workload ≡ some key))
unfolding ensure_locked
ensure_locked-shares job key now p s live run = elim (Bool-cases (is_refresh job key s)) [
  | inl e ↦ rw e (
    refl,
    live,
    refl,
    refl,
    unfold owners_of in (λ j n. refl),
    inr (is_refresh-live job key s e).0,
  )
  | inr e ↦
      let k = rebind-Keeps job key p s live run e in
      let t = (rebind job key s).0 in
      let still : is_running t p ≡ true = unfold is_running in ground (arith, k.running, run) in
      let (k', started, owner) = acquire-Keeps job key now p t k.process still in
      rw e (
        started,
        k'.process,
        k'.running ∙ k.running,
        k'.spawned ∙ k.spawned,
        λ j n. k'.owners j n ∙ k.owners j n,
        inl owner,
      )
]
