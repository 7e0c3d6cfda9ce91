-- ===== src/Torrent/Selections/Synced.antt =====
-- What is wanted in memory and what wanted.json says.
use stremio_libtorrent_serve.Base.{
  ◌≡◌, refl, sym, ap, ◌∙◌, List, [], ◌∷◌, Option, none, some, codes_key, Dict, lookup, contains,
  lookup-erase, Bool-cases, inl, inr,
}
use stremio_libtorrent_serve.Pins.Names.{Text, lower, Want}
use stremio_libtorrent_serve.Pins.Wanted.{Selectors, ask, load, add, drop, drop_found}
use stremio_libtorrent_serve.Pins.Wanted.Lowered.{lower_twice}
use stremio_libtorrent_serve.Pins.Wanted.Remembering.{
  Call, run, add_call, drop_call, asked_by, asked, lookup-ask, lookup-run,
}
use stremio_libtorrent_serve.Torrent.Handle.{Handle}
use stremio_libtorrent_serve.Torrent.Selections.{
  Contents, Engine, apply_found, apply_one, apply_each, apply_pending, want, unwant, restart,
  has_metadata,
}

apply_found-kept :
    (ih : Text) (o : Option Handle) (c : Contents) (specs : List Want) (s : Engine)
    → ((apply_found ih o c specs s).wanted ≡ s.wanted)
      × ((apply_found ih o c specs s).file ≡ s.file)
unfolding apply_found
apply_found-kept ih none c specs s = (refl, refl)
apply_found-kept ih (some h) c specs s = elim (Bool-cases (has_metadata h)) [
  | inl e ↦ (rw e, rw e)
  | inr e ↦ (rw e, rw e)
]

apply_one-kept :
    (contents : Text → Contents) (ih : Text) (specs : List Want) (s : Engine)
    → ((apply_one contents ih specs s).wanted ≡ s.wanted)
      × ((apply_one contents ih specs s).file ≡ s.file)
unfolding apply_one
apply_one-kept contents ih specs s = elim (Bool-cases (contains ih s.applied)) [
  | inl e ↦ (rw e, rw e)
  | inr e ↦
      let k = apply_found-kept ih (lookup ih s.handles) (contents ih) specs s in
      (rw e k.0, rw e k.1)
]

apply_each-kept :
    (contents : Text → Contents) (d : Selectors) (s : Engine)
    → ((apply_each contents d s).wanted ≡ s.wanted) × ((apply_each contents d s).file ≡ s.file)
unfolding apply_each
apply_each-kept contents [] s = (refl, refl)
apply_each-kept contents ((ih, specs) ∷ d) s =
    let k = apply_one-kept contents ih specs s in
    let r = apply_each-kept contents d (apply_one contents ih specs s) in (r.0 ∙ k.0, r.1 ∙ k.1)

-- A request for a torrent, as the engine takes it.
unfoldable pub request : (Text → Contents) → Call → Engine → Engine
request contents (add_call ih spec) s = want contents ih spec s
request contents (drop_call ih) s = unwant ih s

unfoldable pub request_all : (Text → Contents) → List Call → Engine → Engine
request_all contents [] s = s
request_all contents (c ∷ calls) s = request_all contents calls (request contents c s)

drop-lower : (ih : Text) (file : Option Selectors) → drop (lower ih) file ≡ drop ih file
unfolding drop
drop-lower ih file = ap (λ t. drop_found t (lookup t (load file)) (load file) file) (lower_twice ih)

add-lower :
    (ih : Text) (spec : Option Want) (file : Option Selectors)
    → add (lower ih) spec file ≡ add ih spec file
unfolding add
add-lower ih spec file = ap (λ t. some (ask t spec (load file))) (lower_twice ih)

request-asked :
    (contents : Text → Contents) (c : Call) (q : Text) (s : Engine)
    → (lookup q (request contents c s).wanted ≡ asked_by c q (lookup q s.wanted))
      × ((request contents c s).file ≡ run c s.file)
unfolding request want unwant apply_pending run asked_by
request-asked contents (add_call ih spec) q s =
    let specs = ask (lower ih) spec s.wanted in
    let kept = apply_each-kept contents specs _ in
    (
      ap (lookup q) kept.0 ∙ (unfold asked_by in lookup-ask ih q spec s.wanted),
      kept.1 ∙ add-lower ih spec s.file,
    )
request-asked contents (drop_call ih) q s =
    (lookup-erase (lower ih) q s.wanted, drop-lower ih s.file)

-- However downloads are asked for and given up, on an engine that read its registry from a file: the
-- selectors of every torrent in memory are those that the calls make of what the file had, and a new
-- process reads the same.
pub request_all-restart :
    (contents : Text → Contents) (calls : List Call) (handles : Dict Text Handle) (q : Text)
    (s : Engine)
    → lookup q s.wanted ≡ lookup q (load s.file)
    → (lookup q (request_all contents calls s).wanted ≡ asked calls q (lookup q (load s.file)))
      × (lookup q (restart handles (request_all contents calls s)).wanted
          ≡ lookup q (request_all contents calls s).wanted)
unfolding request_all restart asked
request_all-restart contents [] handles q s h = (h, sym h)
request_all-restart contents (c ∷ calls) handles q s h =
    let (mem, disk) = request-asked contents c q s in
    let read = ap (λ f. lookup q (load f)) disk ∙ lookup-run c q s.file in
    let (a, b) =
      request_all-restart contents calls handles q (request contents c s)
        (mem ∙ ap (asked_by c q) h ∙ sym read) in
    (a ∙ ap (asked calls q) read, b)
