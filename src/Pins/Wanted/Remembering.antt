-- ===== src/Pins/Wanted/Remembering.antt =====
-- What wanted.json says after any calls of `add` and `drop`.
use stremio_libtorrent_serve.Base.{
  ◌≡◌, refl, sym, ap, ◌∙◌, List, [], ◌∷◌, Option, none, some, codes_key, codes_discrete, lookup,
  erase, insert-IsDict, erase-IsDict, lookup-insert, lookup-erase, ite, if_pos, if_neg,
}
use stremio_libtorrent_serve.Pins.Names.{Text, lower, Want}
use stremio_libtorrent_serve.Pins.Wanted.{
  Selectors, spec_or_whole, add_want, load, or_empty, ask, add, drop_found, drop,
}
use stremio_libtorrent_serve.Pins.Wanted.Lowered.{
  lower_twice, insert-KeysLower, erase-KeysLower, IsKept, load-IsKept, lookup-load,
}

pub data Call : Type 0 where
  add_call : Text → Option Want → Call
  drop_call : Text → Call

unfoldable pub run : Call → Option Selectors → Option Selectors
unfolding add drop
run (add_call ih spec) file = add ih spec file
run (drop_call ih) file = drop ih file

unfoldable pub run_all : List Call → Option Selectors → Option Selectors
run_all [] file = file
run_all (c ∷ calls) file = run_all calls (run c file)

-- The selectors of one torrent by what is asked: the abstract registry.
unfoldable pub asked_by : Call → Text → Option (List Want) → Option (List Want)
asked_by (add_call ih spec) q o =
    ite (codes_discrete q (lower ih)) (some (add_want (spec_or_whole spec) (or_empty o))) o
asked_by (drop_call ih) q o = ite (codes_discrete q (lower ih)) none o

unfoldable pub asked : List Call → Text → Option (List Want) → Option (List Want)
asked [] q o = o
asked (c ∷ calls) q o = asked calls q (asked_by c q o)

ask-IsKept :
    (ih : Text) (spec : Option Want) (d : Selectors) → IsKept d → IsKept (ask (lower ih) spec d)
unfolding ask
ask-IsKept ih spec d h =
    let specs = add_want (spec_or_whole spec) (or_empty (lookup (lower ih) d)) in
    record {
      dict = insert-IsDict (lower ih) specs d h.dict;
      lowered = insert-KeysLower (lower ih) specs d (lower_twice ih) h.lowered;
    }

pub lookup-ask :
    (ih q : Text) (spec : Option Want) (d : Selectors)
    → lookup q (ask (lower ih) spec d) ≡ asked_by (add_call ih spec) q (lookup q d)
unfolding ask asked_by
lookup-ask ih q spec d =
    let asks = λ (o : Option (List Want)). some (add_want (spec_or_whole spec) (or_empty o)) in
    lookup-insert (lower ih) q (add_want (spec_or_whole spec) (or_empty (lookup (lower ih) d))) d
    ∙ elim (codes_discrete q (lower ih)) [
      | yes p ↦
          if_pos (codes_discrete q (lower ih)) p (asks (lookup (lower ih) d)) (lookup q d)
          ∙ ap (λ t. asks (lookup t d)) (sym p)
          ∙ sym (if_pos (codes_discrete q (lower ih)) p (asks (lookup q d)) (lookup q d))
      | no p ↦
          if_neg (codes_discrete q (lower ih)) p (asks (lookup (lower ih) d)) (lookup q d)
          ∙ sym (if_neg (codes_discrete q (lower ih)) p (asks (lookup q d)) (lookup q d))
    ]

lookup-add :
    (ih q : Text) (spec : Option Want) (file : Option Selectors)
    → lookup q (load (add ih spec file)) ≡ asked_by (add_call ih spec) q (lookup q (load file))
unfolding add
lookup-add ih q spec file =
    lookup-load (ask (lower ih) spec (load file)) q
      (ask-IsKept ih spec (load file) (load-IsKept file))
    ∙ lookup-ask ih q spec (load file)

lookup-drop_found :
    (ih q : Text) (o : Option (List Want)) (file : Option Selectors)
    → lookup ih (load file) ≡ o
    → lookup q (load (drop_found ih o (load file) file))
      ≡ ite (codes_discrete q ih) none (lookup q (load file))
unfolding drop_found
lookup-drop_found ih q none file h = elim (codes_discrete q ih) [
  | yes p ↦
      ap (λ t. lookup t (load file)) p
      ∙ h
      ∙ sym (if_pos (codes_discrete q ih) p none (lookup q (load file)))
  | no p ↦ sym (if_neg (codes_discrete q ih) p none (lookup q (load file)))
]
lookup-drop_found ih q (some specs) file h =
    let kept = load-IsKept file in
    lookup-load (erase ih (load file)) q (record {
      dict = erase-IsDict ih (load file) kept.dict;
      lowered = erase-KeysLower ih (load file) kept.lowered;
    })
    ∙ lookup-erase ih q (load file)

pub lookup-run :
    (c : Call) (q : Text) (file : Option Selectors)
    → lookup q (load (run c file)) ≡ asked_by c q (lookup q (load file))
unfolding run drop asked_by
lookup-run (add_call ih spec) q file = lookup-add ih q spec file
lookup-run (drop_call ih) q file =
    lookup-drop_found (lower ih) q (lookup (lower ih) (load file)) file refl

-- After any calls of `add` and `drop`, on any file, what a start reads for a torrent is what the
-- calls for that torrent make of what the file had for it: each `add` puts its selector behind the
-- others if it is not there, each `drop` leaves none.
pub lookup-run_all :
    (calls : List Call) (q : Text) (file : Option Selectors)
    → lookup q (load (run_all calls file)) ≡ asked calls q (lookup q (load file))
unfolding run_all asked
lookup-run_all [] q file = refl
lookup-run_all (c ∷ calls) q file =
    lookup-run_all calls q (run c file) ∙ ap (asked calls q) (lookup-run c q file)
