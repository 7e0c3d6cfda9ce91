-- ===== src/Transcode/Registry/Invariant/Ensuring.antt =====
-- The invariant of the registry through what `ensure_job` does under its lock.
use stremio_libtorrent_serve.Base.{
  ℕ, ◌≡◌, inl, inr, if_pos, if_neg, Bool, true, false, none, some, String, string_key, str_discrete,
  lookup, insert, discard, arith, lookup-insert, lookup-erase, Bool-cases, Option-cases,
}
use stremio_libtorrent_serve.Transcode.Registry.State.{
  State, set_owners, drop_alias, forget, is_running, live_at,
}
use stremio_libtorrent_serve.Transcode.Registry.Ensure.{
  detach, fresh_dir, start_if, start, acquire, rebind, is_refresh, ensure_locked,
}
use stremio_libtorrent_serve.Transcode.Registry.Invariant.{
  Inv, forget-Inv, drop_alias-Inv, attach-Inv, launch-Inv, host-Inv,
}

-- The job is an alias of no workload but `key`.
abbrev pub Free : String → String → State → Type 0
Free job key s = (k : String) → lookup job s.job_workload ≡ some k → k ≡ key

-- Starting a process may fail; then only the directory is new.
start_if-Inv :
    (b : Bool) (job key : String) (now : ℕ) (s : State)
    → Inv s
    → Free job key s
    → Inv (start_if b job key now s).0
unfolding start_if fresh_dir
start_if-Inv true job key now s v only =
    launch-Inv (fresh_dir key s) (host-Inv s v s.running (fresh_dir key s).dirs) job key now only
start_if-Inv false job key now s v only = host-Inv s v s.running (fresh_dir key s).dirs

acquire-Inv :
    (job key : String) (now : ℕ) (s : State)
    → Inv s
    → Free job key s
    → Inv (acquire job key now s).0
unfolding acquire start forget
acquire-Inv job key now s v only = elim (Option-cases (lookup key s.jobs)) [
  | inl e ↦ rw (e, acquire) (start_if-Inv s.can_spawn job key now s v only)
  | inr (p, e) ↦
      rw (e, acquire)
        (elim (Bool-cases (is_running s p)) [
          | inl r ↦ rw r (attach-Inv s v job key now p e only)
          | inr r ↦ rw r (forgotten p)
        ])
]
  where
    forgotten : ℕ → Inv (start job key now (forget key s)).0
    forgotten p = start_if-Inv s.can_spawn job key now (forget key s) (forget-Inv s v key) only

detach-Inv :
    (job old : String) (s : State)
    → Inv s
    → lookup job s.job_workload ≡ some old
    → Inv (detach job old s).0 × (lookup job (detach job old s).0.job_workload ≡ none)
unfolding detach
detach-Inv job old s v alias = elim (Option-cases (lookup old s.workload_jobs)) [
  | inl none_own ↦ rw (none_own, detach) (unowned none_own, gone s)
  | inr (o, own) ↦
      rw (own, detach)
        (drop_alias-Inv s v job old o alias own, gone (set_owners old (discard job o) s))
]
  where
    gone : (t : State) → lookup job (drop_alias job t).job_workload ≡ none
    gone t = unfold drop_alias in ground (arith, lookup-erase job job t.job_workload)

    unowned : lookup old s.workload_jobs ≡ none → Inv (drop_alias job s)
    unowned h =
        unfold drop_alias in
        record {
          honest = λ k j o own m.
              ground (arith, lookup-erase job j s.job_workload, v.honest k j o own m);
          owned = v.owned;
          timed = v.timed;
          untimed = v.untimed;
          numbered = v.numbered;
          alone = v.alone;
          distinct = v.distinct;
        }

pub rebind-Inv :
    (job key : String) (s : State)
    → Inv s
    → Inv (rebind job key s).0 × Free job key (rebind job key s).0
unfolding rebind
rebind-Inv job key s v = elim (Option-cases (lookup job s.job_workload)) [
  | inl e ↦ rw (e, rebind) (v, λ k h. absurd (ground (arith, e)))
  | inr (old, e) ↦
      rw (e, rebind)
        (elim (str_discrete old key) [
          | yes p ↦
              rw (if_pos _ p (forget key s, none) (detach job old s))
                (forget-Inv s v key, unfold forget in λ k h. ground (arith, e))
          | no p ↦
              rw (if_neg _ p (forget key s, none) (detach job old s))
                (let (w, g) = detach-Inv job old s v e in (w, λ k h. absurd (ground (arith, g))))
        ])
]

pub is_refresh-live :
    (job key : String) (s : State)
    → is_refresh job key s ≡ true
    → (lookup job s.job_workload ≡ some key)
      × (p : ℕ) × (lookup key s.jobs ≡ some p)
      × (is_running s p ≡ true)
unfolding is_refresh live_at
is_refresh-live job key s e = ground arith

-- Whatever `ensure_job` does under the lock keeps the invariant.
pub ensure_locked-Inv :
    (job key : String) (now : ℕ) (s : State) → Inv s → Inv (ensure_locked job key now s).state
unfolding ensure_locked
ensure_locked-Inv job key now s v = elim (Bool-cases (is_refresh job key s)) [
  | inl e ↦ rw e (refreshed e)
  | inr e ↦ rw e (
      let (w, only) = rebind-Inv job key s v in acquire-Inv job key now (rebind job key s).0 w only)
]
  where
    refreshed : is_refresh job key s ≡ true → Inv (record s { seen = insert key now s.seen })
    refreshed e =
        let (_, p, live, _) = is_refresh-live job key s e in
        record {
          honest = v.honest;
          owned = v.owned;
          timed = λ k h. ground (arith, lookup-insert key k now s.seen, v.timed k);
          untimed = λ k h. ground (arith, lookup-insert key k now s.seen, v.untimed k);
          numbered = v.numbered;
          alone = v.alone;
          distinct = v.distinct;
        }
