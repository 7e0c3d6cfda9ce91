-- ===== src/Library/RateLimit/Window.antt =====
-- The attempts let in during any window, and what the table holds.
use stremio_libtorrent_serve.Base.{
  ℕ, suc, ◌+◌, ◌≤◌, ◌≡◌, refl, sym, ap, subst, ◌∙◌, inl, inr, Bool, List, [], ◌∷◌, ◌++◌, length,
  length-append, keep, length-keep-le, Option, none, some, String, string_key, str_discrete, IsDict,
  insert-IsDict, keep-IsDict, lookup, insert, lookup-insert, passing, lookup-keep, arith, leb,
  Bool-cases, ite, if_pos, if_neg, if◌then◌else◌,
}
use stremio_libtorrent_serve.Library.RateLimit.{
  Hits, last, in_window, is_recent, reap, or_empty, allow,
}
use stremio_libtorrent_serve.Library.RateLimit.Times.{
  Until, counted, counted-append, counted-keep, Ordered, Ordered-keep, Ordered-append, Until-keep,
  Until-mono, Until-append, counted-reaped,
}

-- Attempts in the order of their times: the time of the latest, the table, and the attempts that
-- were allowed.
pub data Runs (limit window : ℕ) : ℕ → Hits → List (String × ℕ) → Type 0 where
  start : Runs limit window 0 [] []
  attempt :
      (key : String) (before now : ℕ) (hits : Hits) (granted : List (String × ℕ))
      → Runs limit window before hits granted
      → before ≤ now
      → Runs limit window now
          (allow limit window key now hits).0
          (if (allow limit window key now hits).1 then (key, now) ∷ granted else granted)

-- How many attempts of the key were allowed within the window that ends at the time.
unfoldable pub granted_in : ℕ → String → ℕ → List (String × ℕ) → ℕ
granted_in window key now [] = 0
granted_in window key now ((k, t) ∷ granted) =
    let rest = granted_in window key now granted in
    ite (str_discrete key k) (if in_window window now t then suc rest else rest) rest

abbrev hits_of : String → Hits → List ℕ
hits_of k hits = or_empty (lookup k hits)

or_empty-passing :
    (window now later : ℕ) (o : Option (List ℕ))
    → now ≤ later
    → Ordered (or_empty o)
    → counted window later (or_empty (passing (λ ts. is_recent window now (last ts)) o))
      ≡ counted window later (or_empty o)
unfolding or_empty passing keep
or_empty-passing window now later none h o = refl
or_empty-passing window now later (some ts) h o =
    elim (Bool-cases (is_recent window now (last ts))) [
      | inl e ↦ rw (e, passing, or_empty) refl
      | inr e ↦ rw (e, passing, or_empty) (sym (counted-reaped window now later ts h o e))
    ]

-- What holds of the list of each key through the reaping.
passing-All :
    (P : List ℕ → Type 0) (f : List ℕ → Bool) (o : Option (List ℕ))
    → P []
    → P (or_empty o)
    → P (or_empty (passing f o))
unfolding or_empty passing
passing-All P f none e p = p
passing-All P f (some ts) e p = elim (Bool-cases (f ts)) [
  | inl b ↦ rw (b, passing, or_empty) p
  | inr b ↦ rw (b, passing, or_empty) e
]

record Inv (limit window before : ℕ) (hits : Hits) (granted : List (String × ℕ)) : Type 0 where
  dict : IsDict hits
  ordered : (k : String) → Ordered (hits_of k hits)
  past : (k : String) → Until before (hits_of k hits)
  few : (k : String) → length (hits_of k hits) ≤ limit
  same :
      (k : String) (later : ℕ)
      → before ≤ later
      → granted_in window k later granted ≡ counted window later (hits_of k hits)

reap-Inv :
    (limit window before now : ℕ) (hits : Hits) (granted : List (String × ℕ))
    → before ≤ now
    → Inv limit window before hits granted
    → Inv limit window now (reap window now hits) granted
unfolding reap or_empty
reap-Inv limit window before now hits granted h inv =
    let f : List ℕ → Bool = λ ts. is_recent window now (last ts) in
    let at : (k : String) → lookup k (keep (λ p. f p.1) hits) ≡ passing f (lookup k hits) =
      λ k. lookup-keep f k hits inv.dict in
    record {
      dict = keep-IsDict f hits inv.dict;
      ordered = λ k.
          subst (λ o. Ordered (or_empty o)) (sym (at k))
            (passing-All Ordered f (lookup k hits) tt (inv.ordered k));
      past = λ k.
          subst (λ o. Until now (or_empty o)) (sym (at k))
            (passing-All (Until now) f (lookup k hits) tt (Until-mono before now _ h (inv.past k)));
      few = λ k.
          subst (λ o. length (or_empty o) ≤ limit) (sym (at k))
            (passing-All (λ ts. length ts ≤ limit) f (lookup k hits) (omega arith) (inv.few k));
      same = λ k later b.
          let e : before ≤ later = omega arith in
          inv.same k later e
          ∙ (sym (or_empty-passing window now later (lookup k hits) b (inv.ordered k))
              ∙ ap (λ o. counted window later (or_empty o)) (sym (at k)));
    }

-- What holds of the new list and of the key's old one, of the list that is found.
either :
    (P : List ℕ → Type 0) (key k : String) (ts : List ℕ) (hits : Hits)
    → P ts
    → P (hits_of k hits)
    → P (or_empty (ite (str_discrete k key) (some ts) (lookup k hits)))
unfolding or_empty
either P key k ts hits a b = elim (str_discrete k key) [
  | yes p ↦ rw (if_pos (str_discrete k key) p (some ts) (lookup k hits)) a
  | no p ↦ rw (if_neg (str_discrete k key) p (some ts) (lookup k hits)) b
]

-- The table with another list for one key.
insert-Inv :
    (limit window now : ℕ) (hits : Hits) (granted granted' : List (String × ℕ)) (key : String)
    (ts : List ℕ)
    → Inv limit window now hits granted
    → Ordered ts
    → Until now ts
    → length ts ≤ limit
    → ((later : ℕ) → now ≤ later → granted_in window key later granted' ≡ counted window later ts)
    → ((k : String) (later : ℕ)
        → ¬ (k ≡ key)
        → granted_in window k later granted' ≡ granted_in window k later granted)
    → Inv limit window now (insert key ts hits) granted'
unfolding or_empty
insert-Inv limit window now hits granted granted' key ts inv o u l mine others = record {
  dict = insert-IsDict key ts hits inv.dict;
  ordered = λ k.
      subst (λ x. Ordered (or_empty x)) (sym (lookup-insert key k ts hits))
        (either Ordered key k ts hits o (inv.ordered k));
  past = λ k.
      subst (λ x. Until now (or_empty x)) (sym (lookup-insert key k ts hits))
        (either (Until now) key k ts hits u (inv.past k));
  few = λ k.
      subst (λ x. length (or_empty x) ≤ limit) (sym (lookup-insert key k ts hits))
        (either (λ x. length x ≤ limit) key k ts hits l (inv.few k));
  same = λ k later b.
      subst (λ x. granted_in window k later granted' ≡ counted window later (or_empty x))
        (sym (lookup-insert key k ts hits))
        (elim (str_discrete k key) [
          | yes p ↦ rw (if_pos (str_discrete k key) p (some ts) (lookup k hits)) (
              subst (λ x. granted_in window x later granted' ≡ counted window later ts) (sym p)
                (mine later b))
          | no p ↦
              rw (if_neg (str_discrete k key) p (some ts) (lookup k hits))
                (others k later p ∙ inv.same k later b)
        ]);
}

granted_in_other :
    (window now : ℕ) (key k : String) (later : ℕ) (granted : List (String × ℕ))
    → ¬ (k ≡ key)
    → granted_in window k later ((key, now) ∷ granted) ≡ granted_in window k later granted
unfolding granted_in
granted_in_other window now key k later granted p =
    if_neg (str_discrete k key) p _ (granted_in window k later granted)

granted_in_same :
    (window now : ℕ) (key : String) (later : ℕ) (granted : List (String × ℕ))
    → granted_in window key later ((key, now) ∷ granted)
      ≡ granted_in window key later granted + counted window later (now ∷ [])
unfolding granted_in keep
granted_in_same window now key later granted =
    if_pos (str_discrete key key) refl _ (granted_in window key later granted) ∙ ground arith

allow-Inv :
    (limit window before now : ℕ) (key : String) (hits : Hits) (granted : List (String × ℕ))
    → before ≤ now
    → Inv limit window before hits granted
    → let out = allow limit window key now hits in
      Inv limit window now out.0 (if out.1 then (key, now) ∷ granted else granted)
unfolding allow
allow-Inv limit window before now key hits granted h inv =
    let live = reap window now hits in
    let inv' = reap-Inv limit window before now hits granted h inv in
    let old = or_empty (lookup key live) in
    let p : ℕ → Bool = in_window window now in
    let recent = keep p old in
    let o = Ordered-keep p old (inv'.ordered key) in
    let u = Until-keep p now old (inv'.past key) in
    elim (Bool-cases (leb limit (length recent))) [
      | inl e ↦ rw e (
          insert-Inv limit window now live granted granted key recent inv' o u
            (let a = length-keep-le p old in let b = inv'.few key in omega (arith, a, b))
            (λ later b. inv'.same key later b ∙ sym (counted-keep window now later old b))
            (λ k later q. refl))
      | inr e ↦ rw e (
          insert-Inv limit window now live granted ((key, now) ∷ granted) key (recent ++ (now ∷ []))
            inv' (Ordered-append now recent u o) (Until-append now recent u)
            (let a = length-append recent (now ∷ []) in ground (arith, a, e))
            (λ later b.
              let a = granted_in_same window now key later granted in
              let c = inv'.same key later b in
              let d = counted-keep window now later old b in
              let f = counted-append window later recent (now ∷ []) in omega (arith, a, c, d, f))
            (λ k later q. granted_in_other window now key k later granted q))
    ]

Runs-Inv :
    (limit window before : ℕ) (hits : Hits) (granted : List (String × ℕ))
    → Runs limit window before hits granted
    → Inv limit window before hits granted
unfolding granted_in or_empty lookup keep
Runs-Inv limit window before hits granted Runs.start = record {
  dict = tt;
  ordered = λ k. tt;
  past = λ k. tt;
  few = λ k. omega arith;
  same = λ k later b. refl;
}
Runs-Inv limit window now hits granted (Runs.attempt key before now' hits' granted' runs h) =
    allow-Inv limit window before now key hits' granted' h
      (Runs-Inv limit window before hits' granted' runs)

-- However many attempts are made, of whatever keys, at times that do not go back: in no window that
-- ends at or after the last of them were more attempts of a key allowed than the limit.
pub Runs-limit :
    (limit window before : ℕ) (hits : Hits) (granted : List (String × ℕ))
    → Runs limit window before hits granted
    → (key : String) (later : ℕ) → before ≤ later
    → granted_in window key later granted ≤ limit
Runs-limit limit window before hits granted runs key later h =
    let inv = Runs-Inv limit window before hits granted runs in
    let a = inv.same key later h in
    let b = length-keep-le (in_window window later) (hits_of key hits) in
    let c = inv.few key in omega (arith, a, b, c)
