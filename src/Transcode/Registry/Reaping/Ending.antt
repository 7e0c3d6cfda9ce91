-- ===== src/Transcode/Registry/Reaping/Ending.antt =====
-- What `reap_idle` detaches, and the processes that it ends.
use stremio_libtorrent_serve.Base.{
  ℕ, ◌≡◌, refl, ◌≢◌, inl, inr, ite, Bool, true, false, Option, none, some, List, [], ◌∷◌, String,
  string_key, str_discrete, number_key, Dict, IsDict, lookup, contains, arith, lookup-erase,
  contains-discard, ap, Bool-cases, if◌then◌else◌, ◌∙◌,
}
use stremio_libtorrent_serve.Transcode.Registry.State.{State, is_running}
use stremio_libtorrent_serve.Transcode.Registry.Ending.{
  Detached, clean_up, end_process, drop_workload, last_seen, is_idle, reap_locked,
}
use stremio_libtorrent_serve.Transcode.Registry.Cleanup.{clean_up-SameBut}
use stremio_libtorrent_serve.Transcode.Registry.Methods.{clean_up_all}

-- What `reap_idle` finds and leaves for the key `q`.
abbrev left : ℕ → ℕ → State → String → Option ℕ → Option ℕ → Option ℕ
left now idle_after s q none now_there = now_there
left now idle_after s q (some p) now_there =
    if is_idle now idle_after s (q, p) then none else now_there

pub is_idle-drop :
    (now idle_after : ℕ) (key q : String) (p : ℕ) (s : State)
    → q ≢ key
    → is_idle now idle_after (drop_workload key s).0 (q, p) ≡ is_idle now idle_after s (q, p)
unfolding is_idle drop_workload is_running last_seen
is_idle-drop now idle_after key q p s ne = ground (arith, lookup-erase key q s.seen)

pub drop-jobs :
    (key q : String) (s : State)
    → lookup q (drop_workload key s).0.jobs ≡ ite (str_discrete q key) none (lookup q s.jobs)
unfolding drop_workload
drop-jobs key q s = lookup-erase key q s.jobs

left-drop :
    (now idle_after : ℕ) (key q : String) (s : State) (found : Option ℕ)
    → q ≢ key
    → left now idle_after (drop_workload key s).0 q found (lookup q (drop_workload key s).0.jobs)
      ≡ left now idle_after s q found (lookup q s.jobs)
left-drop now idle_after key q s none ne = ground (arith, drop-jobs key q s)
left-drop now idle_after key q s (some p) ne =
    ground (arith, drop-jobs key q s, is_idle-drop now idle_after key q p s ne)

pub reap_locked-lookup :
    (now idle_after : ℕ) (items : Dict String ℕ) (s : State)
    → IsDict items
    → (q : String)
    → lookup q (reap_locked now idle_after items s).0.jobs
      ≡ left now idle_after s q (lookup q items) (lookup q s.jobs)
unfolding reap_locked lookup
reap_locked-lookup now idle_after [] s d q = refl
reap_locked-lookup now idle_after ((key, p) ∷ items) s d q =
    elim (Bool-cases (is_idle now idle_after s (key, p))) [
      | inl e ↦ rw e (
          reap_locked-lookup now idle_after items (drop_workload key s).0 d.1 q
          ∙ dropped e (str_discrete q key))
      | inr e ↦ rw e (reap_locked-lookup now idle_after items s d.1 q ∙ kept e (str_discrete q key))
    ]
  where
    dropped :
        is_idle now idle_after s (key, p) ≡ true
        → (same : Dec (q ≡ key))
        → left now idle_after
            (drop_workload key s).0
            q
            (lookup q items)
            (lookup q (drop_workload key s).0.jobs)
          ≡ left now idle_after s q (ite same (some p) (lookup q items)) (lookup q s.jobs)
    dropped e (yes eq) = rw eq (rw d.0 (ground (arith, drop-jobs key key s, e)))
    dropped e (no ne) = left-drop now idle_after key q s (lookup q items) ne

    kept :
        is_idle now idle_after s (key, p) ≡ false
        → (same : Dec (q ≡ key))
        → left now idle_after s q (lookup q items) (lookup q s.jobs)
          ≡ left now idle_after s q (ite same (some p) (lookup q items)) (lookup q s.jobs)
    kept e (yes eq) = rw eq (rw d.0 (ground (arith, e)))
    kept e (no ne) = refl

-- Some detached workload has the process `p`.
unfoldable pub ends : ℕ → List Detached → Bool
ends p [] = false
ends p (d ∷ ds) = elim d.process [
  | none ↦ ends p ds
  | some q ↦ ite (number_key.same p q) true (ends p ds)
]

ended-running :
    (o : Option ℕ) (p : ℕ) (s : State)
    → contains p (end_process o s).running ≡ (elim o [
      | none ↦ contains p s.running
      | some q ↦ ite (number_key.same p q) false (contains p s.running)
    ])
unfolding end_process
ended-running none p s = refl
ended-running (some q) p s = contains-discard q p s.running

ended-jobs : (o : Option ℕ) (s : State) → (end_process o s).jobs ≡ s.jobs
unfolding end_process
ended-jobs none s = refl
ended-jobs (some p) s = refl

clean_up-running :
    (d : Detached) (p : ℕ) (s : State)
    → is_running (clean_up d s) p ≡ (elim d.process [
      | none ↦ is_running s p
      | some q ↦ ite (number_key.same p q) false (is_running s p)
    ])
unfolding is_running
clean_up-running d p s =
    ap (contains p) (clean_up-SameBut d s).running ∙ ended-running d.process p s

clean_up-jobs : (d : Detached) (s : State) → (clean_up d s).jobs ≡ s.jobs
clean_up-jobs d s = (clean_up-SameBut d s).jobs ∙ ended-jobs d.process s

pub clean_up_all-running :
    (ds : List Detached) (p : ℕ) (s : State)
    → is_running (clean_up_all ds s) p ≡ (if ends p ds then false else is_running s p)
unfolding clean_up_all ends
clean_up_all-running [] p s = refl
clean_up_all-running (d ∷ ds) p s =
    ground (arith, clean_up_all-running ds p (clean_up d s), clean_up-running d p s)

pub clean_up_all-jobs : (ds : List Detached) (s : State) → (clean_up_all ds s).jobs ≡ s.jobs
unfolding clean_up_all
clean_up_all-jobs [] s = refl
clean_up_all-jobs (d ∷ ds) s = clean_up_all-jobs ds (clean_up d s) ∙ clean_up-jobs d s

pub reap_locked-running :
    (now idle_after : ℕ) (items : Dict String ℕ) (s : State)
    → (reap_locked now idle_after items s).0.running ≡ s.running
unfolding reap_locked drop_workload
reap_locked-running now idle_after [] s = refl
reap_locked-running now idle_after ((key, p) ∷ items) s = ground (
  arith,
  reap_locked-running now idle_after items
      (if is_idle now idle_after s (key, p) then (drop_workload key s).0 else s),
)

pub drop-process : (key : String) (s : State) → (drop_workload key s).1.process ≡ lookup key s.jobs
unfolding drop_workload
drop-process key s = refl
