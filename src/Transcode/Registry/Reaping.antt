-- ===== src/Transcode/Registry/Reaping.antt =====
-- What `reap_idle` ends and what it leaves.
mod Ending
use stremio_libtorrent_serve.Base.{
  ℕ, ◌≡◌, refl, ◌≢◌, inl, inr, ite, Bool, true, false, Option, none, some, List, [], ◌∷◌, String,
  string_key, str_discrete, number_key, Dict, IsDict, lookup, contains, arith, lookup-erase,
  contains-discard, ap, Bool-cases, if◌then◌else◌, ◌∙◌,
}
use stremio_libtorrent_serve.Transcode.Registry.State.{State, is_running}
use stremio_libtorrent_serve.Transcode.Registry.Ending.{
  Detached, clean_up, end_process, drop_workload, last_seen, is_idle, reap_locked,
}
use stremio_libtorrent_serve.Transcode.Registry.Invariant.{Inv}
use stremio_libtorrent_serve.Transcode.Registry.Cleanup.{clean_up-SameBut}
use stremio_libtorrent_serve.Transcode.Registry.Methods.{clean_up_all, reap_idle}
use stremio_libtorrent_serve.Transcode.Registry.Reaping.Ending.{
  is_idle-drop, drop-jobs, reap_locked-lookup, ends, clean_up_all-running, clean_up_all-jobs,
  reap_locked-running, drop-process,
}

-- An idle workload's process is among those to end.
ends-idle :
    (now idle_after : ℕ) (items : Dict String ℕ) (s : State) (q : String) (p : ℕ)
    → lookup q items ≡ some p
    → lookup q s.jobs ≡ some p
    → is_idle now idle_after s (q, p) ≡ true
    → ends p (reap_locked now idle_after items s).1 ≡ true
unfolding reap_locked lookup ends
ends-idle now idle_after [] s q p h live idle = cc
ends-idle now idle_after ((key, p') ∷ items) s q p h live idle =
    elim (Bool-cases (is_idle now idle_after s (key, p'))) [
      | inl e ↦ rw e (
          ground (
            arith,
            drop-process key s,
            drop-jobs key q s,
            is_idle-drop now idle_after key q p s,
            ends-idle now idle_after items (drop_workload key s).0 q p,
          ))
      | inr e ↦ rw e (ground (arith, e, ends-idle now idle_after items s q p))
    ]

later-ne :
    (key k : String) (r : ℕ) (items : Dict String ℕ)
    → lookup key items ≡ none
    → lookup k items ≡ some r
    → k ≢ key
later-ne key k r items none_left h eq = cc (ap (λ (x : String). lookup x items) eq)

-- The process of a workload that is not idle is not among those to end.
ends-busy :
    (now idle_after : ℕ) (items : Dict String ℕ) (s : State) (q : String) (p : ℕ)
    → lookup q s.jobs ≡ some p
    → ((k : String) → lookup k s.jobs ≡ some p → k ≡ q)
    → ((k : String) (r : ℕ) → lookup k items ≡ some r → lookup k s.jobs ≡ some r)
    → IsDict items
    → is_idle now idle_after s (q, p) ≡ false
    → ends p (reap_locked now idle_after items s).1 ≡ false
unfolding reap_locked lookup ends
ends-busy now idle_after [] s q p live alone found d busy = refl
ends-busy now idle_after ((key, p') ∷ items) s q p live alone found d busy =
    elim (Bool-cases (is_idle now idle_after s (key, p'))) [
      | inl e ↦ rw e (
          ground (
            arith,
            drop-process key s,
            here,
            ne e,
            alone key,
            is_idle-drop now idle_after key q p s,
            ends-busy now idle_after items (drop_workload key s).0 q p
                (ground (arith, drop-jobs key q s, ne e)) alone' found' d.1
                (ground (arith, is_idle-drop now idle_after key q p s (ne e))),
          ))
      | inr e ↦ rw e (ends-busy now idle_after items s q p live alone later d.1 busy)
    ]
  where
    here : lookup key s.jobs ≡ some p'
    here = found key p' (ground arith)

    later : (k : String) (r : ℕ) → lookup k items ≡ some r → lookup k s.jobs ≡ some r
    later k r h = found k r (ground (arith, later-ne key k r items d.0 h))

    ne : is_idle now idle_after s (key, p') ≡ true → q ≢ key
    ne e eq = ground (arith, here, ap (λ (x : String). lookup x s.jobs) eq, e)

    alone' : (k : String) → lookup k (drop_workload key s).0.jobs ≡ some p → k ≡ q
    alone' k h = alone k (ground (arith, drop-jobs key k s))

    found' :
        (k : String) (r : ℕ)
        → lookup k items ≡ some r
        → lookup k (drop_workload key s).0.jobs ≡ some r
    found' k r h = ground (arith, drop-jobs key k s, later-ne key k r items d.0 h, later k r h)

-- `reap_idle` ends a registered workload exactly if its process runs and was not seen for
-- `idle_after`: then it leaves the registry and its process ends; otherwise it stays registered
-- and its process goes on as before.
pub reap_idle_exact :
    (now idle_after : ℕ) (s : State)
    → Inv s
    → (q : String) (p : ℕ) → lookup q s.jobs ≡ some p
    → let t = (reap_idle now idle_after s).0 in
      (lookup q t.jobs ≡ (if is_idle now idle_after s (q, p) then none else some p))
      × (is_running t p ≡ (if is_idle now idle_after s (q, p) then false else is_running s p))
unfolding reap_idle
reap_idle_exact now idle_after s v q p live =
    let ended = (reap_locked now idle_after s.jobs s).1 in
    let t = (reap_locked now idle_after s.jobs s).0 in
    (
      ap (lookup q) (clean_up_all-jobs ended t)
          ∙ ground (arith, reap_locked-lookup now idle_after s.jobs s v.distinct q),
      clean_up_all-running ended p t ∙ runs (is_idle now idle_after s (q, p)) refl,
    )
  where
    runs :
        (b : Bool)
        → is_idle now idle_after s (q, p) ≡ b
        → (if ends p (reap_locked now idle_after s.jobs s).1
            then false
            else is_running (reap_locked now idle_after s.jobs s).0 p)
          ≡ (if b then false else is_running s p)
    runs true e = rw (ends-idle now idle_after s.jobs s q p live live e)
    runs false e =
        rw
          (ends-busy now idle_after s.jobs s q p live (λ k h. v.alone k q p h live) (λ k r h. h)
            v.distinct e)
          (unfold is_running in ap (contains p) (reap_locked-running now idle_after s.jobs s))
