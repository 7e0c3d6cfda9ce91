-- ===== src/Playback/Owning.antt =====
-- How the registry's dictionary of jobs follows the changes of its sessions.
use stremio_libtorrent_serve.Base.{
  ◌≡◌, refl, sym, ap, subst, ◌∙◌, true, none≢some, some-injective, Option, none, some, String,
  string_key, str_discrete, Dict, lookup, insert, erase, lookup-erase, lookup-insert_same,
  lookup-insert_other, lookup-erase_same, lookup-erase_other, IsDict, erase-IsDict, arith, if_pos,
}
use stremio_libtorrent_serve.Playback.Sessions.{Session, is_text, drop_job, drop_job_of}

-- Every job with a name stands for a session that has it.
abbrev pub Owned : Dict String Session → Dict String String → Type 0
Owned sessions jobs =
    (job sid : String)
    → is_text job ≡ true
    → lookup job jobs ≡ some sid
    → (s : Session) × (lookup sid sessions ≡ some s) × (s.job_id ≡ some job)

-- Owned through the change of one session that keeps its job.
pub Owned-change :
    (sid : String) (s t : Session) (d : Dict String Session) (jobs : Dict String String)
    → t.job_id ≡ s.job_id
    → lookup sid d ≡ some s
    → Owned d jobs
    → Owned (insert sid t d) jobs
Owned-change sid s t d jobs keeps h owned job q named m =
    let o = owned job q named m in
    elim (str_discrete q sid) [
      | yes p ↦
          let same : s ≡ o.0 = some-injective (sym h ∙ subst (λ x. lookup x d ≡ some o.0) p o.1) in
          (
            t,
            subst (λ x. lookup x (insert sid t d) ≡ some t) (sym p) (lookup-insert_same sid t d),
            keeps ∙ (ap (λ (x : Session). x.job_id) same ∙ o.2),
          )
      | no p ↦ (o.0, lookup-insert_other sid q t d p ∙ o.1, o.2)
    ]

-- A job that is forgotten.
pub Owned-erase :
    (job : String) (d : Dict String Session) (jobs : Dict String String)
    → Owned d jobs
    → Owned d (erase job jobs)
Owned-erase job d jobs owned j q named m = elim (str_discrete j job) [
  | yes p ↦ absurd (
      none≢some
        (sym (lookup-erase_same job jobs) ∙ subst (λ x. lookup x (erase job jobs) ≡ some q) p m))
  | no p ↦ owned j q named (sym (lookup-erase_other job j jobs p) ∙ m)
]

drop_job-IsDict :
    (sid job : String) (o : Option String) (jobs : Dict String String)
    → IsDict jobs
    → IsDict (drop_job sid job o jobs)
unfolding drop_job
drop_job-IsDict sid job none jobs h = h
drop_job-IsDict sid job (some owner) jobs h = ground (arith, h, erase-IsDict job jobs h)

pub drop_job_of-IsDict :
    (sid : String) (o : Option String) (jobs : Dict String String)
    → IsDict jobs
    → IsDict (drop_job_of sid o jobs)
unfolding drop_job_of
drop_job_of-IsDict sid none jobs h = h
drop_job_of-IsDict sid (some job) jobs h = drop_job-IsDict sid job (lookup job jobs) jobs h

-- What is left of the jobs were jobs before.
drop_job-lookup :
    (sid job : String) (o : Option String) (jobs : Dict String String) (j q : String)
    → lookup j (drop_job sid job o jobs) ≡ some q
    → lookup j jobs ≡ some q
unfolding drop_job
drop_job-lookup sid job none jobs j q m = m
drop_job-lookup sid job (some owner) jobs j q m = ground (arith, m, lookup-erase job j jobs)

drop_job_of-lookup :
    (sid : String) (o : Option String) (jobs : Dict String String) (j q : String)
    → lookup j (drop_job_of sid o jobs) ≡ some q
    → lookup j jobs ≡ some q
unfolding drop_job_of
drop_job_of-lookup sid none jobs j q m = m
drop_job_of-lookup sid (some job) jobs j q m = drop_job-lookup sid job (lookup job jobs) jobs j q m

drop_job_of-gone :
    (sid job : String) (jobs : Dict String String)
    → is_text job ≡ true
    → lookup job jobs ≡ some sid
    → lookup job (drop_job_of sid (some job) jobs) ≡ none
unfolding drop_job_of drop_job
drop_job_of-gone sid job jobs named m =
    rw (m, named)
      (rw (if_pos (str_discrete sid sid) refl (erase job jobs) jobs) (lookup-erase_same job jobs))

pub drop_found-Owned :
    (sid : String) (s : Session) (d : Dict String Session) (jobs : Dict String String)
    → lookup sid d ≡ some s
    → Owned d jobs
    → Owned (erase sid d) (drop_job_of sid s.job_id jobs)
drop_found-Owned sid s d jobs h owned j q named m =
    let before = drop_job_of-lookup sid s.job_id jobs j q m in
    let o = owned j q named before in
    elim (str_discrete q sid) [
      | yes p ↦
          let same : s ≡ o.0 = some-injective (sym h ∙ subst (λ x. lookup x d ≡ some o.0) p o.1) in
          let its : s.job_id ≡ some j = ap (λ (x : Session). x.job_id) same ∙ o.2 in
          let gone =
            drop_job_of-gone sid j jobs named (subst (λ x. lookup j jobs ≡ some x) p before) in
          absurd
            (none≢some (sym gone ∙ subst (λ x. lookup j (drop_job_of sid x jobs) ≡ some q) its m))
      | no p ↦ (o.0, lookup-erase_other sid q d p ∙ o.1, o.2)
    ]

-- A new session's id is no job's yet.
pub Owned-new :
    (sid : String) (s : Session) (d : Dict String Session) (jobs : Dict String String)
    → lookup sid d ≡ none
    → Owned d jobs
    → Owned (insert sid s d) jobs
Owned-new sid s d jobs h owned j q named m =
    let o = owned j q named m in
    elim (str_discrete q sid) [
      | yes p ↦ absurd (none≢some (sym h ∙ subst (λ x. lookup x d ≡ some o.0) p o.1))
      | no p ↦ (o.0, lookup-insert_other sid q s d p ∙ o.1, o.2)
    ]

pub Owned-job :
    (sid job : String) (s : Session) (d : Dict String Session) (jobs : Dict String String)
    → s.job_id ≡ some job
    → Owned (insert sid s d) jobs
    → Owned (insert sid s d) (insert job sid jobs)
Owned-job sid job s d jobs its owned j q named m = elim (str_discrete j job) [
  | yes p ↦
      let same : sid ≡ q = some-injective (
        sym (lookup-insert_same job sid jobs)
        ∙ subst (λ x. lookup x (insert job sid jobs) ≡ some q) p m) in
      (
        s,
        subst (λ x. lookup x (insert sid s d) ≡ some s) same (lookup-insert_same sid s d),
        subst (λ x. s.job_id ≡ some x) (sym p) its,
      )
  | no p ↦ owned j q named (sym (lookup-insert_other job j sid jobs p) ∙ m)
]
