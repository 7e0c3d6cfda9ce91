-- ===== src/Library/Listing/Tests.antt =====
-- Runs of the decoder and of the file list at concrete inputs.
use stremio_libtorrent_serve.Base.{
  ℕ, ◌≤◌, ◌≡◌, refl, [], ◌∷◌, some, arith, codes, print, pos, negsuc,
}
use stremio_libtorrent_serve.Library.Bencode.{
  Value, Items, Fields, int, bytes, list, dict, no_items, item, no_fields, field, ok, failed,
  bdecode, decode_value, same_bytes,
}
use stremio_libtorrent_serve.Library.Bencode.Total.{nest, Ends, bdecode-Ends}
use stremio_libtorrent_serve.Library.Bencode.Encoding.{emit, has_key, append_fields}
use stremio_libtorrent_serve.Library.Bencode.RoundTrip.{bdecode-emit}
use stremio_libtorrent_serve.Library.Listing.{Listing, parse_info, get_field, count_items}
use stremio_libtorrent_serve.Library.Listing.Numbering.{file_at, content_at, parse_info-numbered}
use stremio_libtorrent_serve.Library.Listing.Inside.{Inside, parse_info-Inside}

abbrev a_file : Items → ℕ → Fields
a_file path size =
    field (codes "length") (int (pos size)) (field (codes "path") (list path) no_fields)

abbrev episode : Value
episode = dict (a_file (item (bytes (codes "a")) (item (bytes (codes "b.mkv")) no_items)) 7)

abbrev escape : Value
escape = dict (a_file (item (bytes (codes "..")) no_items) 9)

abbrev pad : Value
pad = dict (field (codes "attr") (bytes (codes "p")) (a_file (item (bytes (codes "x")) no_items) 3))

abbrev three : Items
three = item pad (item escape (item episode no_items))

abbrev info : Fields
info = field (codes "files") (list three) no_fields

abbrev listed : Listing
listed = record {
  count = 3;
  files = record { index = 2; parts = codes "a" ∷ codes "b.mkv" ∷ []; size = pos 7 } ∷ [];
}

listed_files : parse_info (dict info) ≡ some listed
unfolding parse_info
listed_files = refl

text_decodes :
    bdecode (codes "d1:ali-3e2:xye1:bi0ee")
    ≡ ok (
        dict (
          field
            (codes "a")
            (list (item (int (negsuc 2)) (item (bytes (codes "xy")) no_items)))
            (field (codes "b") (int (pos 0)) no_fields)))
unfolding bdecode decode_value
text_decodes = refl

text_fails : bdecode (codes "i-0e") ≡ failed
unfolding bdecode decode_value
text_fails = refl

padded_fails : bdecode (codes "i07e") ≡ failed
unfolding bdecode decode_value
padded_fails = refl

underscore_length : bdecode (codes "1_0:0123456789") ≡ ok (bytes (codes "0123456789"))
unfolding bdecode decode_value
underscore_length = refl

bdecode-Ends_example : Ends (λ v. nest v ≤ 65) (bdecode (codes "d1:ali-3ee"))
bdecode-Ends_example = bdecode-Ends (codes "d1:ali-3ee")

bdecode-emit_example : bdecode (emit (dict info)) ≡ ok (dict info)
bdecode-emit_example =
    bdecode-emit (dict info) (unfold has_key append_fields print same_bytes in ground arith)

parse_info-numbered_example :
    (3 ≡ count_items three) × (file_at 2 listed.files ≡ content_at 2 three)
parse_info-numbered_example =
    parse_info-numbered info three listed 2 (unfold get_field in refl) listed_files

parse_info-Inside_example : Inside [] listed.files
parse_info-Inside_example = parse_info-Inside [] (dict info) listed listed_files
